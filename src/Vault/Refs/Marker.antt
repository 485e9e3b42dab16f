-- ===== src/Vault/Refs/Marker.antt =====
-- vault/refs.go: what is read back from a marker.
use utilities.Base.{
  strip-append, String, Bool, true, false, Option, some, Option-cases, ◌⊎◌, inl, inr, ◌≡◌, refl,
  str_append,
}
use utilities.Vault.Store.{Vault, get}
use utilities.Vault.Refs.{ref_key, is_ref, ref_prefix, resolve_string, resolve_str, make_ref}

pub ref_key-append : (key : String) → ref_key (str_append ref_prefix key) ≡ some key
unfolding ref_key
ref_key-append key = strip-append ref_prefix key

pub ref_key-make_ref :
    (namespace key : String)
    → ref_key (make_ref namespace key) ≡ some (str_append namespace (str_append ":" key))
unfolding make_ref
ref_key-make_ref namespace key = ref_key-append (str_append namespace (str_append ":" key))

resolve_str-key :
    (v : Vault) (s key secret : String)
    → ref_key s ≡ some key
    → get v key ≡ some secret
    → resolve_str (some v) s ≡ secret
unfolding resolve_string
resolve_str-key v s key secret marked held = rw (resolve_string, marked, held) refl

-- A marker whose key the vault holds is replaced by the secret.
pub resolve_str-append :
    (v : Vault) (key secret : String)
    → get v key ≡ some secret
    → resolve_str (some v) (str_append ref_prefix key) ≡ secret
resolve_str-append v key secret held =
    resolve_str-key v (str_append ref_prefix key) key secret (ref_key-append key) held

-- A text that is no marker stays as it is, whatever the vault.
pub resolve_str-plain : (v : Option Vault) (s : String) → is_ref s ≡ false → resolve_str v s ≡ s
unfolding resolve_string is_ref
resolve_str-plain v s plain = elim (Option-cases (ref_key s)) [
  | inl none_found ↦ rw (resolve_string, none_found) refl
  | inr (key, found) ↦ let wrong = rw (is_ref, found) at plain in cc
]

-- A text stays as it is unless its secret was found.
pub resolve_string-cases :
    (v : Option Vault) (s : String)
    → ((marked : Bool) × (resolve_string s v ≡ (s, marked, false)))
      ⊎ ((plain : String) × (resolve_string s v ≡ (plain, true, true)))
unfolding resolve_string
resolve_string-cases v s = elim (Option-cases (ref_key s)) [
  | inl none_found ↦ inl (false, rw (resolve_string, none_found) refl)
  | inr (key, found) ↦ elim (Option-cases v) [
    | inl locked ↦ inl (true, rw (resolve_string, found, locked) refl)
    | inr (vault, unlocked) ↦ elim (Option-cases (get vault key)) [
      | inl missing ↦ inl (true, rw (resolve_string, found, unlocked, missing) refl)
      | inr (plain, held) ↦ inr (plain, rw (resolve_string, found, unlocked, held) refl)
    ]
  ]
]
