-- ===== src/Vault/Files/Atomic.antt =====
-- vault/vault.go: the file of a vault while a save replaces it.
use text.Mathlib.TextPositions.{len-append}
use Prim.Native.String.{len}
use utilities.Base.{
  String, Bool, true, false, Option, none, some, [], ◌++◌, ◌≡◌, ◌≢◌, refl, ap, ◌∙◌, arith,
}
use utilities.Vault.Format.{Bytes}
use utilities.Vault.Store.{Disk, DiskStep}
use utilities.Vault.Files.{checked, tmp_of, write_atomic}

-- What a save relies on: the calls touch the file that they name, and a `Rename` that fails
-- changes nothing.
pub record IsDisk (D : Disk) : Type 0 where
  pub mkdir_all-read :
      (f : D.Files) (p q : String) → D.read_file (D.mkdir_all f p).0 q ≡ D.read_file f q
  pub open-other :
      (f : D.Files) (p q : String)
      → p ≢ q
      → D.read_file (D.open_truncated f p).0 q ≡ D.read_file f q
  pub open-empty :
      (f : D.Files) (p : String)
      → (D.open_truncated f p).1 ≡ true
      → D.read_file (D.open_truncated f p).0 p ≡ some []
  pub write-other :
      (f : D.Files) (p q : String) (out : Bytes)
      → p ≢ q
      → D.read_file (D.write f p out).0 q ≡ D.read_file f q
  pub write-added :
      (f : D.Files) (p : String) (old out : Bytes)
      → D.read_file f p ≡ some old
      → (D.write f p out).1 ≡ true
      → D.read_file (D.write f p out).0 p ≡ some (old ++ out)
  pub sync-read : (f : D.Files) (p q : String) → D.read_file (D.sync f p).0 q ≡ D.read_file f q
  pub close-read : (f : D.Files) (p q : String) → D.read_file (D.close f p).0 q ≡ D.read_file f q
  pub remove-other :
      (f : D.Files) (p q : String) → p ≢ q → D.read_file (D.remove f p) q ≡ D.read_file f q
  pub rename-moved :
      (f : D.Files) (p q : String)
      → (D.rename f p q).1 ≡ true
      → D.read_file (D.rename f p q).0 q ≡ D.read_file f p
  pub rename-failed :
      (f : D.Files) (p q r : String)
      → (D.rename f p q).1 ≡ false
      → D.read_file (D.rename f p q).0 r ≡ D.read_file f r

pub checked_elim {ℓ κ λ'} :
    {F : Type ℓ} {R : Type κ} (P : R → Type λ') (call : F × Bool) (failed worked : F → R)
    → (call.1 ≡ false → P (failed call.0))
    → (call.1 ≡ true → P (worked call.0))
    → P (checked call failed worked)
checked_elim P (files, true) failed worked bad good = good refl
checked_elim P (files, false) failed worked bad good = bad refl

tmp_of-ne : (path : String) → tmp_of path ≢ path
tmp_of-ne path e = absurd (omega (arith, len-append path ".tmp", ap len e))

module _ (D : Disk) (L : IsDisk D) (files : D.Files) (path : String) (out : Bytes) where
  -- The file is the new one, or it is what it was and the save has failed.
  abbrev pub IsReplaced : D.Files × Option DiskStep → Type 0
  IsReplaced (after, none) = D.read_file after path ≡ some out
  IsReplaced (after, some _) = D.read_file after path ≡ D.read_file files path

  pub write_atomic-IsReplaced : IsReplaced (write_atomic D files path out)
  unfolding write_atomic
  write_atomic-IsReplaced =
      let tmp = tmp_of path in
      let apart = tmp_of-ne path in
      let made = (D.mkdir_all files path).0 in
      let opened = (D.open_truncated made tmp).0 in
      let filled = (D.write opened tmp out).0 in
      let synced = (D.sync filled tmp).0 in
      let closed = (D.close synced tmp).0 in
      let same1 = L.mkdir_all-read files path path in
      let same2 = L.open-other made tmp path apart ∙ same1 in
      let same3 = L.write-other opened tmp path out apart ∙ same2 in
      let same4 = L.sync-read filled tmp path ∙ same3 in
      let same5 = L.close-read synced tmp path ∙ same4 in
      let removed = λ (f : D.Files) (e : D.read_file f path ≡ D.read_file files path).
        L.remove-other (D.close f tmp).0 tmp path apart ∙ L.close-read f tmp path ∙ e in
      checked_elim IsReplaced (D.mkdir_all files path) _ _ (λ _. same1)
        λ _.
          checked_elim IsReplaced (D.open_truncated made tmp) _ _ (λ _. same2)
            λ is_open.
              checked_elim IsReplaced (D.write opened tmp out) _ _ (λ _. removed filled same3)
                λ is_full.
                  checked_elim IsReplaced (D.sync filled tmp) _ _ (λ _. removed synced same4)
                    λ _.
                      checked_elim IsReplaced (D.close synced tmp) _ _
                        (λ _. L.remove-other closed tmp path apart ∙ same5)
                        λ _.
                          checked_elim IsReplaced (D.rename closed tmp path) _ _
                            (λ failed. L.rename-failed closed tmp path path failed ∙ same5)
                            λ moved.
                              L.rename-moved closed tmp path moved
                              ∙ L.close-read synced tmp tmp
                              ∙ L.sync-read filled tmp tmp
                              ∙ L.write-added opened tmp [] out (L.open-empty made tmp is_open)
                                  is_full
