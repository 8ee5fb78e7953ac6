-- ===== src/Db/People/Creation/Frame.antt =====
-- Creating a person writes no enrollment.
use python_rasenmaeher_api.Base.{ℕ, String, ◌≡◌, Option, none, some, List, arith}
use python_rasenmaeher_api.Exec.{backend_error, raise, ◌>>◌, is_not_found}
use python_rasenmaeher_api.Exec.Keeps.{Keeps-on_error, Keeps, Keeps-bind}
use python_rasenmaeher_api.Json.{Dict}
use python_rasenmaeher_api.Text.{unescape_newlines}
use python_rasenmaeher_api.Db.{
  Person, Enrollment, Store, World, outside, call, create_task, checked,
}
use python_rasenmaeher_api.Db.People.{
  text_or_none, insert, make_directory, remove_directory, write_files, by_callsign,
}
use python_rasenmaeher_api.Db.People.Creation.{
  check_csr, check_service_names, check_callsign_free, obtain_csr, save_and_sign, create_rows,
  post_create, store_extra, create_with_cert,
}

-- The table of enrollments is the given one.
abbrev pub Enrollments : List Enrollment → Store → Type 0
Enrollments rows s = s.enrollments ≡ rows

module _ (w : World) (rows : List Enrollment) where
  check_csr-Keeps :
      (csr : Option String) (callsign : String)
      → Keeps (Enrollments rows) (check_csr w csr callsign)
  unfolding check_csr
  check_csr-Keeps none callsign = record { at = λ s h. h }
  check_csr-Keeps (some csr) callsign = record { at = λ s h. ground arith }

  check_service_names-Keeps :
      (callsign : String) → Keeps (Enrollments rows) (check_service_names w callsign)
  unfolding check_service_names
  check_service_names-Keeps callsign = record { at = λ s h. ground arith }

  check_callsign_free-Keeps :
      (callsign : String) → Keeps (Enrollments rows) (check_callsign_free w callsign)
  unfolding check_callsign_free by_callsign checked is_not_found
  check_callsign_free-Keeps callsign = record { at = λ s h. ground arith }

  obtain_csr-Keeps :
      (pk : ℕ) (callsign : String) (csr : Option String)
      → Keeps (Enrollments rows) (obtain_csr w pk callsign csr)
  unfolding obtain_csr outside
  obtain_csr-Keeps pk callsign none = record { at = λ s h. ground arith }
  obtain_csr-Keeps pk callsign (some csr) = record { at = λ s h. ground arith }

  insert-Keeps : (p : Person) → Keeps (Enrollments rows) (insert p)
  unfolding insert
  insert-Keeps p = record { at = λ s h. ground arith }

  make_directory-Keeps : (pk : ℕ) → Keeps (Enrollments rows) (make_directory pk)
  unfolding make_directory
  make_directory-Keeps pk = record { at = λ s h. ground arith }

  save_and_sign-Keeps :
      (p : Person) (csr : Option String) → Keeps (Enrollments rows) (save_and_sign w p csr)
  unfolding save_and_sign outside
  save_and_sign-Keeps p csr = Keeps-bind (insert p) _ (insert-Keeps p) λ _.
      Keeps-bind (obtain_csr w p.pk p.callsign csr) _ (obtain_csr-Keeps p.pk p.callsign csr) λ c.
        Keeps-bind (outside (λ n. w.sign_csr n c))
          (λ cert. write_files p.pk (λ f. record f { cert = some (unescape_newlines cert) }))
          (record { at = λ s h. h }) λ cert. record { at = λ s h. h }

  create_rows-Keeps :
      (p : Person) (csr : Option String) → Keeps (Enrollments rows) (create_rows w p csr)
  unfolding create_rows remove_directory
  create_rows-Keeps p csr = Keeps-bind (make_directory p.pk) _ (make_directory-Keeps p.pk) λ _.
      Keeps-on_error (save_and_sign w p csr) (λ e. do remove_directory p.pk; raise backend_error)
        (save_and_sign-Keeps p csr) λ e. record { at = λ s h. h }

  post_create-Keeps : (p : Person) → Keeps (Enrollments rows) (post_create w p)
  unfolding post_create outside create_task store_extra
  post_create-Keeps p = record { at = λ s h. ground arith }

  pub create_with_cert-Keeps :
      (callsign : String) (extra : Option Dict) (csr : Option String)
      → Keeps (Enrollments rows) (create_with_cert w callsign extra csr)
  unfolding create_with_cert call
  create_with_cert-Keeps callsign extra csr =
      let person : ℕ → Person = λ pk. record {
        pk = pk;
        callsign = callsign;
        extra = extra;
        deleted = none;
        revoke_reason = none;
      } in
      Keeps-bind (check_csr w (text_or_none csr) callsign) _
        (check_csr-Keeps (text_or_none csr) callsign)
        λ _. Keeps-bind (check_service_names w callsign) _ (check_service_names-Keeps callsign) λ _.
          Keeps-bind (check_callsign_free w callsign) _ (check_callsign_free-Keeps callsign) λ _.
            Keeps-bind (call w.uuid4) _ (record { at = λ s h. h })
              λ pk.
                Keeps-bind (create_rows w (person pk) (text_or_none csr)) _
                  (create_rows-Keeps (person pk) (text_or_none csr))
                  λ _. post_create-Keeps (person pk)
