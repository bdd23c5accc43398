-- ===== src/Device/Identity/Open.antt =====
-- When `Device::open` succeeds.
use mathlib.Core.Path.{subst}
use mathlib.Core.Option.{some-injective}
use distributed_jbod.Common.{
  ℕ, ◌≡◌, ◌⊎◌, ◌↔◌, refl, sym, ◌∙◌, ap, not, Option, none, some, List, [], Outcome, ok, err, ◌==◌,
  ==_iff, inl, inr, fail_if-ok, fail_if-eq-ok, >>=-eq-ok, not-false, bytes_eq, bytes_eq_iff,
}
use distributed_jbod.Record.{system_name}
use distributed_jbod.Device.{
  bad_identity, other_system, unsupported_format, wrong_cluster, DeviceError, Entry, dir, file,
  Disk, io, not_found, other, not_a_directory,
}
use distributed_jbod.Device.Tree.{entry_at, read_file}
use distributed_jbod.Device.Checks.{
  DeviceIdentity, identity_path, device_format_version, check_cluster, judge_identity,
}
use distributed_jbod.Device.Identity.{open_device, no_identity}

-- The identity is one that the code accepts.
pub record IsAccepted (expected : Option ℕ) (i : DeviceIdentity) : Type 0 where
  pub named : i.system ≡ system_name
  pub format : i.format_version ≡ device_format_version
  pub member : (expected ≡ none) ⊎ (expected ≡ some i.cluster_id)

check_cluster-member :
    (expected : Option ℕ) (i : DeviceIdentity)
    → check_cluster expected i ≡ ok tt
    → (expected ≡ none) ⊎ (expected ≡ some i.cluster_id)
unfolding check_cluster
check_cluster-member none i e = inl refl
check_cluster-member (some c) i e =
    let same =
      fail_if-ok (not (i.cluster_id == c)) (wrong_cluster [] i.device_id c i.cluster_id) e in
    inr (ap some (sym ((==_iff i.cluster_id c).0 (not-false (i.cluster_id == c) same))))

member-check_cluster :
    (expected : Option ℕ) (i : DeviceIdentity)
    → ((expected ≡ none) ⊎ (expected ≡ some i.cluster_id))
    → check_cluster expected i ≡ ok tt
unfolding check_cluster
member-check_cluster none i m = refl
member-check_cluster (some c) i (inl wrong) = absurd (cc)
member-check_cluster (some c) i (inr same) =
    rw (check_cluster, (==_iff i.cluster_id c).1 (sym (some-injective _ _ same))) refl

judge_identity-IsAccepted :
    (expected : Option ℕ) (found : Option DeviceIdentity) (i : DeviceIdentity)
    → judge_identity expected found ≡ ok i
    → (found ≡ some i) × IsAccepted expected i
unfolding judge_identity
judge_identity-IsAccepted expected none i e = absurd (cc)
judge_identity-IsAccepted expected (some j) i e =
    let (named, rest) =
      fail_if-eq-ok (not (bytes_eq j.system system_name))
        (bad_identity identity_path (other_system j.system)) _ e in
    let (format, last) =
      fail_if-eq-ok (not (j.format_version == device_format_version))
        (bad_identity identity_path (unsupported_format j.format_version)) _ rest in
    let (u, member, same) = >>=-eq-ok (check_cluster expected j) (λ u. ok j) last in
    let accepted : IsAccepted expected j = record {
      named =
          (bytes_eq_iff j.system system_name).0 (not-false (bytes_eq j.system system_name) named);
      format =
          (==_iff j.format_version device_format_version).0
            (not-false (j.format_version == device_format_version) format);
      member = check_cluster-member expected j member;
    } in
    let equal : j ≡ i = cc in
    (ap some equal, subst (λ (x : DeviceIdentity). IsAccepted expected x) equal accepted)

IsAccepted-judge_identity :
    (expected : Option ℕ) (i : DeviceIdentity)
    → IsAccepted expected i
    → judge_identity expected (some i) ≡ ok i
unfolding judge_identity
IsAccepted-judge_identity expected i a =
    rw
      (
        (bytes_eq_iff i.system system_name).1 a.named,
        (==_iff i.format_version device_format_version).1 a.format,
        member-check_cluster expected i a.member,
      )
      refl

module _ (from_json : List ℕ → Option DeviceIdentity) (expected : Option ℕ) (disk : Disk) where
  -- The device's directory is there, and its identity file holds an identity that is accepted.
  pub record IsDeviceOf (i : DeviceIdentity) : Type 0 where
    pub content : List ℕ
    pub root : entry_at [] disk.entries ≡ some dir
    pub stored : entry_at identity_path disk.entries ≡ some (file content)
    pub parsed : from_json content ≡ some i
    pub accepted : IsAccepted expected i

  open_stored :
      (content : List ℕ)
      → entry_at [] disk.entries ≡ some dir
      → entry_at identity_path disk.entries ≡ some (file content)
      → open_device from_json expected disk ≡ (judge_identity expected (from_json content), disk)
  unfolding open_device read_file
  open_stored content at_root stored = rw (open_device, at_root, read_file, stored) refl

  pub open_absent :
      entry_at [] disk.entries ≡ none
      → open_device from_json expected disk ≡ (err (io [] not_found), disk)
  unfolding open_device
  open_absent root = rw (open_device, root) refl

  pub open_no_directory :
      (bytes : List ℕ)
      → entry_at [] disk.entries ≡ some (file bytes)
      → open_device from_json expected disk ≡ (err (not_a_directory []), disk)
  unfolding open_device
  open_no_directory bytes root = rw (open_device, root) refl

  pub open_missing :
      entry_at [] disk.entries ≡ some dir
      → entry_at identity_path disk.entries ≡ none
      → open_device from_json expected disk ≡ (err (no_identity disk), disk)
  unfolding open_device read_file
  open_missing root missing = rw (open_device, root, read_file, missing) refl

  pub open_unreadable :
      entry_at [] disk.entries ≡ some dir
      → entry_at identity_path disk.entries ≡ some dir
      → open_device from_json expected disk ≡ (err (io identity_path other), disk)
  unfolding open_device read_file
  open_unreadable root odd = rw (open_device, root, read_file, odd) refl

  -- An answer that is no success.
  not_ok :
      {i : DeviceIdentity} (failure : DeviceError)
      → open_device from_json expected disk ≡ (err failure, disk)
      → (open_device from_json expected disk).0 ≡ ok i
      → ⊥
  not_ok {i} failure fails e =
      let wrong : Path (Outcome DeviceError DeviceIdentity) (err failure) (ok i) =
        sym (ap (λ (r : Outcome DeviceError DeviceIdentity × Disk). r.0) fails) ∙ e in
      cc

  pub open_device-IsDeviceOf :
      (i : DeviceIdentity) → (open_device from_json expected disk).0 ≡ ok i → IsDeviceOf i
  open_device-IsDeviceOf i e =
      outcome (entry_at [] disk.entries) refl (entry_at identity_path disk.entries) refl
    where
      outcome :
          (at_root : Option Entry)
          → entry_at [] disk.entries ≡ at_root
          → (at_file : Option Entry) → entry_at identity_path disk.entries ≡ at_file
          → IsDeviceOf i
      outcome none root at_file found = absurd (not_ok _ (open_absent root) e)
      outcome (some (file bytes)) root at_file found =
          absurd (not_ok _ (open_no_directory bytes root) e)
      outcome (some dir) root none found = absurd (not_ok _ (open_missing root found) e)
      outcome (some dir) root (some dir) found = absurd (not_ok _ (open_unreadable root found) e)
      outcome (some dir) root (some (file content)) found =
          let judged : judge_identity expected (from_json content) ≡ ok i =
            ap (λ (r : Outcome DeviceError DeviceIdentity × Disk). r.0)
              (sym (open_stored content root found))
            ∙ e in
          let (parsed, accepted) =
            judge_identity-IsAccepted expected (from_json content) i judged in
          record {
            content = content;
            root = root;
            stored = found;
            parsed = parsed;
            accepted = accepted;
          }

  -- Whatever it answers, it changes nothing.
  pub open_device_keeps :
      (answer : Outcome DeviceError DeviceIdentity) × (open_device from_json expected disk
        ≡ (answer, disk))
  open_device_keeps =
      outcome (entry_at [] disk.entries) refl (entry_at identity_path disk.entries) refl
    where
      outcome :
          (at_root : Option Entry)
          → entry_at [] disk.entries ≡ at_root
          → (at_file : Option Entry) → entry_at identity_path disk.entries ≡ at_file
          → (answer : Outcome DeviceError DeviceIdentity) × (open_device from_json expected disk
              ≡ (answer, disk))
      outcome none root at_file found = (err (io [] not_found), open_absent root)
      outcome (some (file bytes)) root at_file found =
          (err (not_a_directory []), open_no_directory bytes root)
      outcome (some dir) root none found = (err (no_identity disk), open_missing root found)
      outcome (some dir) root (some dir) found =
          (err (io identity_path other), open_unreadable root found)
      outcome (some dir) root (some (file content)) found =
          (judge_identity expected (from_json content), open_stored content root found)

  -- `open` succeeds with an identity exactly when the directory is there and its identity file holds that
  -- identity, of this system, of format version 1 and, where a cluster is expected, of that cluster. It
  -- leaves the disk as it was.
  pub open_device_iff :
      (i : DeviceIdentity) → (open_device from_json expected disk ≡ (ok i, disk)) ↔ IsDeviceOf i
  open_device_iff i = (
    λ e. open_device-IsDeviceOf i (ap (λ (r : Outcome DeviceError DeviceIdentity × Disk). r.0) e),
    λ d.
        open_stored d.content d.root d.stored
        ∙ ap (λ (r : Outcome DeviceError DeviceIdentity). (r, disk))
            (ap (judge_identity expected) d.parsed
              ∙ IsAccepted-judge_identity expected i d.accepted),
  )
