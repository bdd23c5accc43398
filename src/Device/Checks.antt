-- ===== src/Device/Checks.antt =====
-- The contents of a device's identity file, and the checks that `Device::open` of device.rs makes of them.
use distributed_jbod.Common.{
  ℕ, not, Option, none, some, [], ◌∷◌, Outcome, ok, err, fail_if, ◌>>◌, ◌==◌, bytes_eq,
}
use distributed_jbod.Naming.{Text}
use distributed_jbod.Cluster.{DeviceId}
use distributed_jbod.Record.{system_name}
use distributed_jbod.Device.{
  FilePath, not_json, other_system, unsupported_format, DeviceError, bad_identity, wrong_cluster,
}

abbrev pub device_identity_file : Text
device_identity_file =
    b'D' ∷ b'I' ∷ b'S' ∷ b'T' ∷ b'R' ∷ b'I' ∷ b'B' ∷ b'U' ∷ b'T' ∷ b'E' ∷ b'D' ∷ b'-' ∷ b'J' ∷ b'B'
    ∷ b'O' ∷ b'D' ∷ b'-' ∷ b'D' ∷ b'E' ∷ b'V' ∷ b'I' ∷ b'C' ∷ b'E' ∷ b'.' ∷ b'j' ∷ b's' ∷ b'o'
    ∷ b'n' ∷ []

abbrev pub identity_path : FilePath
identity_path = device_identity_file ∷ []

abbrev pub device_format_version : ℕ
device_format_version = 1

pub record DeviceIdentity : Type 0 where
  pub system : Text
  pub notice : Text
  pub format_version : ℕ
  pub device_id : DeviceId
  pub cluster_id : ℕ
  pub created : ℕ

unfoldable pub check_cluster : Option ℕ → DeviceIdentity → Outcome DeviceError (Unit {0})
check_cluster none i = ok tt
check_cluster (some expected) i =
    fail_if (not (i.cluster_id == expected)) (wrong_cluster [] i.device_id expected i.cluster_id)

unfoldable pub judge_identity :
    Option ℕ → Option DeviceIdentity → Outcome DeviceError DeviceIdentity
judge_identity expected none = err (bad_identity identity_path not_json)
judge_identity expected (some i) = do
  fail_if (not (bytes_eq i.system system_name)) (bad_identity identity_path (other_system i.system))
  fail_if (not (i.format_version == device_format_version))
      (bad_identity identity_path (unsupported_format i.format_version))
  check_cluster expected i
  ok i
