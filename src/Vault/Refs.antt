-- ===== src/Vault/Refs.antt =====
-- vault/refs.go and web/vault_refs.go: the markers that stand for secrets, and their replacement.
pub mod Marker
use utilities.Base.{
  strip, ℕ, String, Bool, true, false, ◌&&◌, Option, none, some, List, [], ◌∷◌, map, eqb,
  if◌then◌else◌, str_append, string_keyed, ◌==◌,
}
use Prim.Native.String.{[] as empty_text, ◌∷◌ as ◌then◌}
use Prim.Native.Char.{code}
use utilities.Vault.Store.{Vault, get}

abbrev pub ref_prefix : String
ref_prefix = "$vault:"

abbrev pub is_some {ℓ} : {A : Type ℓ} → Option A → Bool
is_some none = false
is_some (some _) = true

-- `RefKey`
unfoldable pub ref_key : String → Option String
unfolding strip
ref_key s = strip ref_prefix s

unfoldable pub is_ref : String → Bool
unfolding ref_key
is_ref s = is_some (ref_key s)

unfoldable pub make_ref : String → String → String
make_ref namespace key = str_append ref_prefix (str_append namespace (str_append ":" key))

-- `ResolveString`: the text, whether it is a marker, and whether its secret was found. A vault
-- that is `nil` is locked.
unfoldable pub resolve_string : String → Option Vault → String × Bool × Bool
unfolding ref_key get
resolve_string s v = elim (ref_key s) [
  | none ↦ (s, false, false)
  | some key ↦ elim v [
    | none ↦ (s, true, false)
    | some vault ↦ elim (get vault key) [
      | none ↦ (s, true, false)
      | some plain ↦ (plain, true, true)
    ]
  ]
]

-- `encoding/csv`: the rows of a text up to the first that is malformed, and the text of rows.
pub record Csv : Type 0 where
  pub rows : String → List (List String)
  pub print : List (List String) → String

unfoldable pub resolve_row : Option Vault → List String → List String
unfolding resolve_string
resolve_row v (user ∷ pass ∷ rest) =
    let (resolved, marked, found) = resolve_string pass v in
    user ∷ (if marked && found then resolved else pass) ∷ rest
resolve_row v row = row

unfoldable pub resolve_csv : Csv → String → Option Vault → String
unfolding resolve_row
resolve_csv csv input v =
    if input == "" then input else csv.print (map (resolve_row v) (csv.rows input))

-- The fields of a start request that can hold a marker.
pub record Credentials : Type 0 where
  pub target_password : String
  pub private_key_pem : String
  pub private_key_passphrase : String
  pub bastion_pass : String
  pub bastion_passphrase : String
  pub bastion_private_key_pem : String
  pub normal_users_csv : String
  pub large_users_csv : String
  pub download_users_csv : String

-- `resolveStr`
abbrev pub resolve_str : Option Vault → String → String
resolve_str v s = (resolve_string s v).0

-- `resolveStartReqVaultRefs`
unfoldable pub resolve_credentials : Csv → Option Vault → Credentials → Credentials
unfolding resolve_string resolve_csv
resolve_credentials csv v c = record {
  target_password = resolve_str v c.target_password;
  private_key_pem = resolve_str v c.private_key_pem;
  private_key_passphrase = resolve_str v c.private_key_passphrase;
  bastion_pass = resolve_str v c.bastion_pass;
  bastion_passphrase = resolve_str v c.bastion_passphrase;
  bastion_private_key_pem = resolve_str v c.bastion_private_key_pem;
  normal_users_csv = resolve_csv csv c.normal_users_csv v;
  large_users_csv = resolve_csv csv c.large_users_csv v;
  download_users_csv = resolve_csv csv c.download_users_csv v;
}
