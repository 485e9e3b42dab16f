-- ===== src/RunConfig/Checked.antt =====
-- config.go: configurations that pass RunConfig.Validate.
use utilities.Base.{
  ◌≡◌, refl, sym, ap, ◌∙◌, inl, inr, String, false, Option, none, some, List, pos, ◌≤ℤ◌, ℤ-cases,
  ◌==◌, string_keyed, arith, Option-cases,
}
use utilities.Runner.Rotation.{UserCreds}
use utilities.RunConfig.Source.{ConfigError}
use utilities.RunConfig.Run.{
  NormalLoad, LargeFileLoad, DownloadLoad, RunConfig, check_normal, check_large_file,
  check_download, check_all, fill_defaults, check_loads, validate, no_one, max_ℤ, source_error,
}

abbrev pub IsNormal : List UserCreds → NormalLoad → Type 0
IsNormal users n =
    (no_one users ≡ false)
    × (pos 1 ≤ℤ n.files_per_minute)
    × (pos 1 ≤ℤ n.min_size_mb)
    × (n.min_size_mb ≤ℤ n.max_size_mb)
    × (source_error "normal" n.source ≡ none)

abbrev pub IsLargeFile : List UserCreds → LargeFileLoad → Type 0
IsLargeFile users l =
    (no_one users ≡ false)
    × (pos 1 ≤ℤ l.interval_minutes)
    × (pos 1 ≤ℤ l.min_size)
    × (l.min_size ≤ℤ l.max_size)
    × (source_error "large-file" l.source ≡ none)

abbrev pub IsDownload : List UserCreds → DownloadLoad → Type 0
IsDownload users d = (no_one users ≡ false) × (pos 1 ≤ℤ d.parallel_streams)

check_normal-IsNormal :
    (users : List UserCreds) (n : NormalLoad)
    → (check_normal users n).1 ≡ none
    → IsNormal users (check_normal users n).0
unfolding check_normal
check_normal-IsNormal users n ok =
    ground (arith, ℤ-cases n.files_per_minute, ℤ-cases n.min_size_mb, ℤ-cases n.max_size_mb)

check_large_file-IsLargeFile :
    (users : List UserCreds) (l : LargeFileLoad)
    → (check_large_file users l).1 ≡ none
    → IsLargeFile users (check_large_file users l).0
unfolding check_large_file
check_large_file-IsLargeFile users l ok =
    ground (arith, ℤ-cases l.interval_minutes, ℤ-cases l.min_size, ℤ-cases l.max_size)

check_download-IsDownload :
    (folder : String) (users : List UserCreds) (d : DownloadLoad)
    → (check_download folder users d).1 ≡ none
    → IsDownload users (check_download folder users d).0
unfolding check_download
check_download-IsDownload folder users d ok = ground (arith, ℤ-cases d.parallel_streams)

-- On the load that is enabled, if any.
abbrev pub OnSome {ℓ} : {A : Type ℓ} → (A → Type 0) → Option A → Type 0
OnSome P none = Unit
OnSome P (some a) = P a

check_all-OnSome {ℓ} :
    {A : Type ℓ} (P : A → Type 0) (check : A → A × Option ConfigError)
    → ((a : A) → (check a).1 ≡ none → P (check a).0)
    → (o : Option A) → (check_all check o).1 ≡ none
    → OnSome P (check_all check o).0
check_all-OnSome P check h none ok = tt
check_all-OnSome P check h (some a) ok = h a ok

abbrev pub AreLoads : RunConfig → Type 0
AreLoads c =
    OnSome (IsNormal c.normal_users) c.normal
    × OnSome (IsLargeFile c.large_file_users) c.large_file
    × OnSome (IsDownload c.download_users) c.download
    × (pos 0 ≤ℤ c.max_consecutive_failures)

abbrev Passes : RunConfig × Option ConfigError → Type 0
Passes r = r.1 ≡ none → AreLoads r.0

check_loads-Passes : (c : RunConfig) → Passes (check_loads c)
unfolding check_loads fill_defaults
check_loads-Passes c =
    let normal = check_all (check_normal c.normal_users) c.normal in
    let large_file = check_all (check_large_file c.large_file_users) c.large_file in
    let download = check_all (check_download c.upload_folder c.download_users) c.download in
    elim (Option-cases normal.1) [
      | inr (err, e) ↦ rw (e, check_loads) (λ ok. cc)
      | inl e ↦ elim (Option-cases large_file.1) [
        | inr (err, f) ↦ rw (e, check_loads, f) (λ ok. cc)
        | inl f ↦ elim (Option-cases download.1) [
          | inr (err, g) ↦ rw (e, check_loads, f, g) (λ ok. cc)
          | inl g ↦
              rw (e, check_loads, f, g)
                (λ ok. (
                  check_all-OnSome (IsNormal c.normal_users) (check_normal c.normal_users)
                      (check_normal-IsNormal c.normal_users) c.normal e,
                  check_all-OnSome (IsLargeFile c.large_file_users)
                      (check_large_file c.large_file_users)
                      (check_large_file-IsLargeFile c.large_file_users) c.large_file f,
                  check_all-OnSome (IsDownload c.download_users)
                      (check_download c.upload_folder c.download_users)
                      (check_download-IsDownload c.upload_folder c.download_users) c.download g,
                  ground (arith, ℤ-cases c.max_consecutive_failures),
                ))
        ]
      ]
    ]

check_loads-keeps :
    (c : RunConfig)
    → ((check_loads c).0.host ≡ c.host)
      × ((check_loads c).0.port ≡ c.port)
      × ((check_loads c).0.duration_hours ≡ c.duration_hours)
      × ((check_loads c).0.parallel_streams ≡ c.parallel_streams)
unfolding check_loads fill_defaults
check_loads-keeps c =
    let normal = check_all (check_normal c.normal_users) c.normal in
    let large_file = check_all (check_large_file c.large_file_users) c.large_file in
    let download = check_all (check_download c.upload_folder c.download_users) c.download in
    elim (Option-cases normal.1) [
      | inr (err, e) ↦ rw (e, check_loads) (refl, refl, refl, refl)
      | inl e ↦ elim (Option-cases large_file.1) [
        | inr (err, f) ↦ rw (e, check_loads, f) (refl, refl, refl, refl)
        | inl f ↦ elim (Option-cases download.1) [
          | inr (err, g) ↦ rw (e, check_loads, f, g) (refl, refl, refl, refl)
          | inl g ↦ rw (e, check_loads, f, g) (refl, refl, refl, refl)
        ]
      ]
    ]

-- The checks before the loads.
validate_passed :
    (c : RunConfig)
    → (validate c).1 ≡ none
    → let streams : RunConfig = record c { parallel_streams = max_ℤ c.parallel_streams (pos 1) } in
      (validate c ≡ check_loads streams)
      × ((c.host == "") ≡ false)
      × (pos 1 ≤ℤ c.port)
      × (c.port ≤ℤ pos 65535)
      × (pos 1 ≤ℤ c.duration_hours)
      × (pos 1 ≤ℤ max_ℤ c.parallel_streams (pos 1))
unfolding validate
validate_passed c ok =
    ground (arith, ℤ-cases c.port, ℤ-cases c.duration_hours, ℤ-cases c.parallel_streams)

-- A configuration that passes `Validate` has a host, a port from 1 to 65535, a positive duration and
-- at least one stream; every load that is enabled has users and sizes and rates that are positive,
-- the greatest size no smaller than the least; and the failure threshold is not negative.
pub validate-IsChecked :
    (c : RunConfig)
    → (validate c).1 ≡ none
    → let checked = (validate c).0 in
      ((checked.host == "") ≡ false)
      × (pos 1 ≤ℤ checked.port)
      × (checked.port ≤ℤ pos 65535)
      × (pos 1 ≤ℤ checked.duration_hours)
      × (pos 1 ≤ℤ checked.parallel_streams)
      × AreLoads checked
validate-IsChecked c ok =
    let (whole, host, low, high, hours, streams) = validate_passed c ok in
    let d : RunConfig = record c { parallel_streams = max_ℤ c.parallel_streams (pos 1) } in
    let (same_host, same_port, same_hours, same_streams) = check_loads-keeps d in
    let passed : (check_loads d).1 ≡ none = sym (ap (λ r. r.1) whole) ∙ ok in
    rw whole (
      rw same_host host,
      rw same_port low,
      rw same_port high,
      rw same_hours hours,
      rw same_streams streams,
      check_loads-Passes d passed,
    )
