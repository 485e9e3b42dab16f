-- ===== src/Vault/Tests.antt =====
-- The vault on small inputs: a disk in memory, and a library for which the laws hold.
mod Sample
mod Requests
use utilities.Base.{
  ◌⊎◌, ℕ, ◌+◌, ◌≤◌, ◌<◌, String, Bool, true, false, ◌&&◌, Bool-cases, ltb, Option, none, some, inl,
  inr, List, [], ◌∷◌, ◌++◌, length, map, ◌≡◌, ◌≢◌, ◌↔◌, refl, sym, ap, All, lookup, insert, delete,
  string_keyed, ◌==◌, if◌then◌else◌, replicate, arith,
}
use utilities.Vault.Format.{
  Bytes, parse, blob, short_header, bad_magic, unknown_version, unknown_kdf, put_uint32,
}
use utilities.Vault.Format.RoundTrip.{AreBytes}
use utilities.Vault.Store.{
  Vault, encrypt, decrypt, get, set_secret, list_refs, close_vault, empty_secret,
}
use utilities.Vault.Files.{save, open_vault, create, change_passphrase}
use utilities.Vault.Files.Opened.{IsCopy, IsFilled, IsUint32, open-save}
use utilities.Vault.Files.Changed.{
  IsUntouched, save-IsUntouched, open-change_passphrase, change_passphrase-close_vault,
}
use utilities.Vault.Files.Accepted.{IsSealed, decrypt-IsSealed}
use utilities.Vault.Tests.Sample.{
  small, small-exact, small-IsCrypto, in_memory, in_memory-IsDisk, random, random-IsFilled, holding,
}

-- ---------------------------------------------------------------- the file

test_short : parse (83 ∷ 76 ∷ 84 ∷ 86 ∷ []) ≡ inl short_header
unfolding parse
test_short = refl

test_magic : parse (replicate 43 1) ≡ inl bad_magic
unfolding parse
test_magic = refl

test_version : parse (83 ∷ 76 ∷ 84 ∷ 86 ∷ 2 ∷ replicate 40 1) ≡ inl unknown_version
unfolding parse
test_version = refl

test_kdf : parse (83 ∷ 76 ∷ 84 ∷ 86 ∷ 1 ∷ 2 ∷ replicate 40 1) ≡ inl unknown_kdf
unfolding parse
test_kdf = refl

test_uint32 : put_uint32 65536 ≡ 0 ∷ 1 ∷ 0 ∷ 0 ∷ []
unfolding put_uint32
test_uint32 = refl

-- ---------------------------------------------------------------- the calls

test_empty_secret : set_secret holding "a" "" ≡ (holding, some empty_secret)
unfolding set_secret
test_empty_secret = refl

test_list_refs : list_refs (set_secret holding "a" "b").0 ≡ "a" ∷ "smtp" ∷ []
unfolding list_refs set_secret
test_list_refs = refl

holding-IsUint32 : IsUint32 holding
holding-IsUint32 = (omega arith, omega arith)

holding_saved : (save small in_memory [] holding 9 random).2 ≡ none
unfolding save insert lookup delete
holding_saved = refl

holding_changed : (change_passphrase small in_memory [] holding (120 ∷ []) 9 random).2 ≡ none
unfolding change_passphrase insert lookup delete
holding_changed = refl

closed_changed :
    (change_passphrase small in_memory [] (close_vault holding) (120 ∷ []) 9 random).2 ≡ none
unfolding change_passphrase close_vault insert lookup delete
closed_changed = refl

open-save_example :
    (u : Vault) × (open_vault small in_memory
        (save small in_memory [] holding 9 random).0
        "v.bin"
        (112 ∷ 119 ∷ [])
      ≡ inr u)
    × IsCopy (record holding { updated = 9 }) u
open-save_example =
    open-save small in_memory small-IsCrypto in_memory-IsDisk [] holding 9 random holding-IsUint32
      random-IsFilled holding_saved

save-IsUntouched_example :
    (((save small in_memory [] holding 9 random).2 ≡ none)
      ⊎ (in_memory.read_file (save small in_memory [] holding 9 random).0 "v.bin"
          ≡ in_memory.read_file [] "v.bin"))
    × ((save small in_memory [] holding 9 random).1.secrets ≡ holding.secrets)
    × ((save small in_memory [] holding 9 random).1.pass ≡ holding.pass)
    × ((save small in_memory [] holding 9 random).1.created ≡ 5)
save-IsUntouched_example = save-IsUntouched small in_memory in_memory-IsDisk [] holding 9 random

open-change_passphrase_example :
    (u : Vault) × (open_vault small in_memory
        (change_passphrase small in_memory [] holding (120 ∷ []) 9 random).0
        "v.bin"
        (120 ∷ [])
      ≡ inr u)
    × IsCopy (record holding { pass = 120 ∷ []; updated = 9 }) u
open-change_passphrase_example =
    open-change_passphrase small in_memory small-IsCrypto in_memory-IsDisk [] holding (120 ∷ []) 9
      random holding-IsUint32 random-IsFilled holding_changed

change_passphrase-close_vault_example :
    (u : Vault) × (open_vault small in_memory
        (change_passphrase small in_memory [] (close_vault holding) (120 ∷ []) 9 random).0
        "v.bin"
        (120 ∷ [])
      ≡ inr u)
    × ((ref : String) → get u ref ≡ none)
change_passphrase-close_vault_example =
    change_passphrase-close_vault small in_memory small-IsCrypto in_memory-IsDisk [] holding
      (120 ∷ []) 9 random holding-IsUint32 random-IsFilled closed_changed

-- The bytes of a file with the sample's secret.
abbrev sample_file : Bytes
sample_file =
    (83 ∷ 76 ∷ 84 ∷ 86 ∷ 1 ∷ 1 ∷ 0 ∷ 1 ∷ 0 ∷ 0 ∷ 0 ∷ 0 ∷ 0 ∷ 3 ∷ 4 ∷ [])
    ++ (replicate 16 0 ++ (replicate 12 9 ++ (231 ∷ 5 ∷ 9 ∷ 1 ∷ [])))

test_sample_file :
    decrypt small "v.bin" (112 ∷ 119 ∷ []) sample_file ≡ inr (record holding { updated = 9 })
unfolding decrypt
test_sample_file = refl

abbrev are_bytes : Bytes → Bool
are_bytes [] = true
are_bytes (b ∷ bs) = ltb b 256 && are_bytes bs

are_bytes-AreBytes : (b : Bytes) → are_bytes b ≡ true → AreBytes b
are_bytes-AreBytes [] h = tt
are_bytes-AreBytes (b ∷ bs) h = elim (Bool-cases (ltb b 256)) [
  | inl small_enough ↦ (ground arith, are_bytes-AreBytes bs (rw small_enough at h))
  | inr large ↦ let wrong = rw large at h in cc
]

sample_file-AreBytes : AreBytes sample_file
sample_file-AreBytes = are_bytes-AreBytes sample_file refl

decrypt-IsSealed_example : IsSealed small (record holding { updated = 9 }) sample_file
decrypt-IsSealed_example =
    decrypt-IsSealed small small-exact "v.bin" (112 ∷ 119 ∷ []) sample_file
      (record holding { updated = 9 }) sample_file-AreBytes test_sample_file
