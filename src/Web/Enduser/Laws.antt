-- ===== src/Web/Enduser/Laws.antt =====
-- A download is the caller's own certificate, whatever name is asked for.
use python_rasenmaeher_api.Base.{
  refl, ◌⊎◌, Option, none, false, some, String, ◌≡◌, inl, inr, arith, ◌==◌, eq_iff, Bool-cases,
}
use python_rasenmaeher_api.Exec.{or_raise, ◌>>◌, attribute_error, >>=-eq-ok, ok, pure, ◌>>=◌}
use python_rasenmaeher_api.Web.Enduser.{
  has_suffix, get_user_pfx, own_response, get_user_pem, send_file, create_and_respond, respond,
  FileResponse, without_suffix, deplosuffix, require_own,
}
use python_rasenmaeher_api.Db.People.Pfx
use python_rasenmaeher_api.Db.{success, audit, Store, Person, World}
use python_rasenmaeher_api.Web.{refuse}
use python_rasenmaeher_api.Db.People.{lift}
use python_rasenmaeher_api.Settings.{deployment_name}

-- The name that is asked for, without the endings of the deployment's file names.
abbrev pub asked_pem : String → String → String
asked_pem deployment name =
    without_suffix ".pem" (without_suffix (deplosuffix deployment ".pem") name)

abbrev pub asked_pfx : String → String → String
asked_pfx deployment name =
    without_suffix ".pfx" (without_suffix (deplosuffix deployment ".pfx") name)

module _ (w : World) where
  -- The file is the person's, and the name is the person's callsign.
  pub record IsOwn (callsign : String) (person : Person) (r : FileResponse) : Type 0 where
    pub owner : r.owner ≡ person.pk
    pub named : person.callsign ≡ callsign

  own_name :
      (callsign : String) (person : Person) (s t : Store) (u : Unit {0})
      → require_own w callsign (person.callsign == callsign) s ≡ (ok u, t)
      → person.callsign ≡ callsign
  unfolding refuse
  own_name callsign person s t u h = elim (Bool-cases (person.callsign == callsign)) [
    | inl e ↦ (eq_iff person.callsign callsign).0 e
    | inr e ↦ absurd (ground arith)
  ]

  own_file :
      (extension callsign : String) (person : Person) (s t : Store) (r : FileResponse)
      → respond w extension callsign person s ≡ (ok r, t)
      → r.owner ≡ person.pk
  own_file extension callsign person s t r h =
      let (deployment, u, e, k) =
        >>=-eq-ok (λ deployment. pure (own_response w extension callsign person deployment)) t r
          (lift (deployment_name w.settings)) s h in
      ground arith

  own_created :
      (extension callsign : String) (person : Person) (s t : Store) (r : FileResponse)
      → create_and_respond w extension callsign person s ≡ (ok r, t)
      → r.owner ≡ person.pk
  unfolding create_and_respond
  own_created extension callsign person s t r h =
      let (a, u, e, k) =
        >>=-eq-ok
          (λ _. do
            audit "certificate_download" success none none
            respond w extension callsign person)
          t r (Pfx.create_pfx w person) s h in
      let (b, v, f, l) =
        >>=-eq-ok (λ _. respond w extension callsign person) t r
          (audit "certificate_download" success none none) u k in
      own_file extension callsign person v t r l

  send_file-IsOwn :
      (extension callsign : String) (person : Person) (s t : Store) (r : FileResponse)
      → send_file w extension callsign person s ≡ (ok r, t)
      → IsOwn callsign person r
  unfolding send_file
  send_file-IsOwn extension callsign person s t r h =
      let (a, u, e, k) =
        >>=-eq-ok (λ _. create_and_respond w extension callsign person) t r
          (require_own w callsign (person.callsign == callsign)) s h in
      record {
        owner = own_created extension callsign person u t r k;
        named = own_name callsign person s u a e;
      }

  -- What a download says: there is a person, the file is that person's, and the callsign is what
  -- was asked for.
  pub record IsDownload (person : Option Person) (r : FileResponse) (asked other : String)
      : Type 0 where
    pub caller : Person
    pub is_caller : person ≡ some caller
    pub owner : r.owner ≡ caller.pk
    pub named : (caller.callsign ≡ asked) ⊎ (caller.callsign ≡ other)

  get_user_pem-IsDownload :
      (name deployment other : String) (person : Option Person) (s t : Store) (r : FileResponse)
      → deployment_name w.settings ≡ ok deployment
      → get_user_pem w name person s ≡ (ok r, t)
      → IsDownload person r other (asked_pem deployment name)
  unfolding get_user_pem
  get_user_pem-IsDownload name deployment other none s t r d h = absurd (ground arith)
  get_user_pem-IsDownload name deployment other (some person) s t r d h =
      let own = send_file-IsOwn ".pem" (asked_pem deployment name) person s t r (ground arith) in
      record { caller = person; is_caller = refl; owner = own.owner; named = inr own.named }

  -- Where the deployment's name can be read, a download of a container, or of a PEM file by the same
  -- address, is answered only with the file of the person who was recognised, never without a
  -- person, and only if the name that is asked for, without the endings of the deployment's file
  -- names, is that person's callsign.
  pub get_user_pfx-IsDownload :
      (name deployment : String) (person : Option Person) (s t : Store) (r : FileResponse)
      → deployment_name w.settings ≡ ok deployment
      → get_user_pfx w name person s ≡ (ok r, t)
      → IsDownload person r
          (asked_pfx deployment name)
          (asked_pem deployment (asked_pfx deployment name))
  unfolding get_user_pfx
  get_user_pfx-IsDownload name deployment person s t r d h =
      elim (Bool-cases (has_suffix ".pem" (asked_pfx deployment name))) [
        | inl e ↦
            get_user_pem-IsDownload (asked_pfx deployment name) deployment
              (asked_pfx deployment name) person s t r d (ground arith)
        | inr e ↦ container e person (ground arith)
      ]
    where
      container :
          has_suffix ".pem" (asked_pfx deployment name) ≡ false
          → (given : Option Person)
          → (or_raise attribute_error given >>= λ user.
                send_file w ".pfx" (asked_pfx deployment name) user)
              s
            ≡ (ok r, t)
          → IsDownload given r
              (asked_pfx deployment name)
              (asked_pem deployment (asked_pfx deployment name))
      container e none k = absurd (ground arith)
      container e (some user) k =
          let own = send_file-IsOwn ".pfx" (asked_pfx deployment name) user s t r k in
          record { caller = user; is_caller = refl; owner = own.owner; named = inl own.named }
