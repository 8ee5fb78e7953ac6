-- ===== src/Cert.antt =====
-- Checks on certificate requests and revocation reasons:
-- src/rasenmaeher_api/web/api/utils/csr_utils.py and `validate_reason` of
-- src/rasenmaeher_api/cert/cert_manager/private.py and src/rasenmaeher_api/cert/cfssl/private.py.
pub mod Subject
pub mod Cfssl
pub mod CertManager
use Prim.Native.String
use text.Mathlib.Text.{find?}
use python_rasenmaeher_api.Base.{String, Bool, Option, none, some, List, ◌==◌, is_some, find_first}
use python_rasenmaeher_api.Exec.{Result, ok, err, value_error}
use python_rasenmaeher_api.Db.{ReasonFlag, World}

-- `needle in haystack` on texts
abbrev pub contains_text : String → String → Bool
contains_text haystack needle = is_some (find? haystack needle)

module _ (w : World) where
  -- `verify_csr`: the subject of the request has the text "CN=" with the callsign behind it.
  unfoldable pub verify_csr : String → String → Result Bool
  verify_csr csrpem callsign = elim (w.csr_subject csrpem) [
    | none ↦ err value_error
    | some dn ↦ ok (contains_text dn (String.◌++◌ "CN=" callsign))
  ]

-- `Union[ReasonFlags, str]`
pub data ReasonTypes : Type 0 where
  flag : ReasonFlag → ReasonTypes
  named : String → ReasonTypes

-- `dict.get` after `update`: the names come before the values.
unfoldable pub resolve_reason : List ReasonFlag → String → Option ReasonFlag
resolve_reason flags s = elim (find_first (λ f. f.name == s) flags) [
  | some f ↦ some f
  | none ↦ find_first (λ f. f.value == s) flags
]

module _ (w : World) where
  unfoldable pub validate_reason : ReasonTypes → Result ReasonFlag
  unfolding resolve_reason
  validate_reason (flag f) = ok f
  validate_reason (named s) = elim (resolve_reason w.reason_flags s) [
    | none ↦ err value_error
    | some f ↦ ok f
  ]
