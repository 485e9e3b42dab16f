-- ===== src/Vault/Migrate/Row.antt =====
-- web/vault_migrate.go: one credential that moves into the vault, and its marker.
use Prim.Native.String.{[] as empty_text, ◌∷◌ as ◌then◌, len}
use Prim.Native.String.append
use Prim.Native.Char.{code}
use text.Mathlib.TextPositions.{len-append}
use text.Mathlib.TextLemmas.{append_assoc}
use utilities.Base.{
  ◌+◌, String, true, false, Bool-cases, none, some, Option-cases, inl, inr, eqb, ◌≡◌, refl, sym, ap,
  ◌∙◌, str_append, insert, arith, string_keyed, ◌==◌, if◌then◌else◌,
}
use utilities.Vault.Store.{set_secret}
use utilities.Vault.Refs.{ref_prefix, make_ref, is_ref}
use utilities.Vault.Migrate.{Migration, ref_of, split_at_colon, make_ref_marker, is_plain, stored}

split_at_colon-append :
    (p s : String)
    → split_at_colon p ≡ none
    → split_at_colon (str_append p (str_append ":" s)) ≡ some (p, s)
unfolding split_at_colon
split_at_colon-append empty_text s h =
    ap split_at_colon (append.nil (str_append ":" s) ∙ append.cons _ "" s)
    ∙ ap (λ t. some ("", t)) (append.nil s)
split_at_colon-append (c then p) s h = elim (Bool-cases (eqb (code c) 58)) [
  | inl colon ↦ let wrong = rw (split_at_colon, colon) at h in cc
  | inr other ↦ elim (Option-cases (split_at_colon p)) [
    | inr (found, e) ↦ let wrong = rw (split_at_colon, other, e) at h in cc
    | inl e ↦
        ap split_at_colon (append.cons c p (str_append ":" s))
        ∙ rw (split_at_colon, other, split_at_colon-append p s e) refl
  ]
]

make_ref_marker-make_ref :
    (key namespace rest : String)
    → split_at_colon key ≡ some (namespace, rest)
    → make_ref_marker key ≡ make_ref namespace rest
unfolding make_ref_marker
make_ref_marker-make_ref key namespace rest h = rw (make_ref_marker, h) refl

schedule-plain : split_at_colon "schedule" ≡ none
unfolding split_at_colon
schedule-plain = refl

-- The marker of a ref is the ref behind the prefix.
pub make_ref_marker-ref_of :
    (id field : String)
    → make_ref_marker (ref_of id field) ≡ str_append ref_prefix (ref_of id field)
unfolding make_ref
make_ref_marker-ref_of id field =
    let rest = str_append id (str_append "/" field) in
    let whole : str_append "schedule:" rest ≡ str_append "schedule" (str_append ":" rest) =
      append_assoc "schedule" ":" rest in
    let cut : split_at_colon (str_append "schedule:" rest) ≡ some ("schedule", rest) =
      ap split_at_colon whole ∙ split_at_colon-append "schedule" rest schedule-plain in
    make_ref_marker-make_ref (ref_of id field) "schedule" rest cut
    ∙ ap (str_append ref_prefix) (sym whole)

ref_of-given : (id field : String) → (ref_of id field == "") ≡ false
ref_of-given id field = elim (Bool-cases (ref_of id field == "")) [
  | inr given ↦ given
  | inl empty ↦
      let same = (string_keyed.same_iff (ref_of id field) "").0 empty in
      absurd
        (omega (arith, len-append "schedule:" (str_append id (str_append "/" field)), ap len same))
]

-- The state after a value has moved.
abbrev pub moved : String → String → Migration → Migration
moved ref value m = record m {
  vault = record m.vault { secrets = insert ref value m.vault.secrets };
  migrated = m.migrated + 1;
  changed = true;
}

is_plain-parts :
    (value : String) → is_plain value ≡ true → ((value == "") ≡ false) × (is_ref value ≡ false)
is_plain-parts value h = ground arith

pub stored-set_secret :
    (label id field value : String) (m : Migration)
    → is_plain value ≡ true
    → stored label (ref_of id field) value m (set_secret m.vault (ref_of id field) value)
      ≡ (str_append ref_prefix (ref_of id field), moved (ref_of id field) value m)
unfolding set_secret
stored-set_secret label id field value m plain =
    let (given, _) = is_plain-parts value plain in
    rw (set_secret, ref_of-given id field, given)
      (ap (λ t. (t, moved (ref_of id field) value m)) (make_ref_marker-ref_of id field))
