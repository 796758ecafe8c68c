-- ===== src/Sbi/Services.antt =====
-- The wrappers of src/util/sbi/api.rs, one module of the source after the other.
use nt_rustos.Common.{ℕ, Bool, true, false, ◌==◌, if◌then◌else◌, List, [], ◌∷◌, replicate}
use nt_rustos.Sbi.{
  SbiResult, ok, err, failed, Firmware, sbi_call, base_id, ipi_id, rfence_id, hsm_id, srst_id,
  pmu_id, dbcn_id,
}

-- `[0; 6]`.
abbrev pub no_args : List ℕ
no_args = replicate 6 0

-- `unwrap_or(0)`.
abbrev pub unwrap_or_zero : SbiResult → ℕ
unwrap_or_zero (ok n) = n
unwrap_or_zero (err e) = 0

-- `match ret { Ok(0) => Ok(0), _ => Err(Failed) }`.
abbrev pub zero_or_failed : SbiResult → SbiResult
zero_or_failed (ok n) = if n == 0 then ok 0 else err failed
zero_or_failed (err e) = err failed

abbrev pub reset_type_shutdown : ℕ
reset_type_shutdown = 0

abbrev pub reset_type_cold_reboot : ℕ
reset_type_cold_reboot = 1

abbrev pub reset_type_warm_reboot : ℕ
reset_type_warm_reboot = 2

abbrev pub reset_reason_no_reason : ℕ
reset_reason_no_reason = 0

module _ {W : Type 0} (fw : Firmware W) where
  -- base
  unfoldable pub get_spec_version : W → SbiResult × W
  get_spec_version w = let r = sbi_call fw base_id 0 no_args w in (ok (unwrap_or_zero r.0), r.1)

  unfoldable pub get_impl_id : W → SbiResult × W
  get_impl_id w = let r = sbi_call fw base_id 1 no_args w in (ok (unwrap_or_zero r.0), r.1)

  unfoldable pub get_impl_version : W → SbiResult × W
  get_impl_version w = let r = sbi_call fw base_id 2 no_args w in (ok (unwrap_or_zero r.0), r.1)

  unfoldable pub probe_extension : ℕ → W → SbiResult × W
  probe_extension id w =
      let r = sbi_call fw base_id 3 (id ∷ 0 ∷ 0 ∷ 0 ∷ 0 ∷ 0 ∷ []) w in
      (ok (unwrap_or_zero r.0), r.1)

  unfoldable pub get_mvendorid : W → SbiResult × W
  get_mvendorid w = let r = sbi_call fw base_id 4 no_args w in (ok (unwrap_or_zero r.0), r.1)

  unfoldable pub get_marchid : W → SbiResult × W
  get_marchid w = let r = sbi_call fw base_id 5 no_args w in (ok (unwrap_or_zero r.0), r.1)

  unfoldable pub get_mimpid : W → SbiResult × W
  get_mimpid w = let r = sbi_call fw base_id 6 no_args w in (ok (unwrap_or_zero r.0), r.1)

  -- timer
  unfoldable pub set_timer : ℕ → W → SbiResult × W
  set_timer time w = (ok 0, fw.set_timer time w)

  -- ipi
  unfoldable pub send_ipi : ℕ → W → SbiResult × W
  send_ipi hart_mask w =
      let r = sbi_call fw ipi_id 0 (hart_mask ∷ 0 ∷ 0 ∷ 0 ∷ 0 ∷ 0 ∷ []) w in
      (zero_or_failed r.0, r.1)

  -- rfence
  unfoldable pub remote_fence_i : ℕ → W → SbiResult × W
  remote_fence_i hart_mask w =
      let r = sbi_call fw rfence_id 0 (hart_mask ∷ 0 ∷ 0 ∷ 0 ∷ 0 ∷ 0 ∷ []) w in
      (zero_or_failed r.0, r.1)

  unfoldable pub remote_sfence_vma : ℕ → ℕ → ℕ → W → SbiResult × W
  remote_sfence_vma hart_mask start size w =
      let r = sbi_call fw rfence_id 1 (hart_mask ∷ start ∷ size ∷ 0 ∷ 0 ∷ 0 ∷ []) w in
      (zero_or_failed r.0, r.1)

  unfoldable pub remote_sfence_vma_asid : ℕ → ℕ → ℕ → ℕ → W → SbiResult × W
  remote_sfence_vma_asid hart_mask start size asid w =
      let r = sbi_call fw rfence_id 2 (hart_mask ∷ start ∷ size ∷ asid ∷ 0 ∷ 0 ∷ []) w in
      (zero_or_failed r.0, r.1)

  -- hsm
  unfoldable pub hart_start : ℕ → ℕ → ℕ → W → SbiResult × W
  hart_start hartid start_addr opaque w =
      let r = sbi_call fw hsm_id 0 (hartid ∷ start_addr ∷ opaque ∷ 0 ∷ 0 ∷ 0 ∷ []) w in
      (zero_or_failed r.0, r.1)

  unfoldable pub hart_stop : W → SbiResult × W
  hart_stop w = let r = sbi_call fw hsm_id 1 no_args w in (zero_or_failed r.0, r.1)

  unfoldable pub hart_get_status : ℕ → W → SbiResult × W
  hart_get_status hartid w = sbi_call fw hsm_id 2 (hartid ∷ 0 ∷ 0 ∷ 0 ∷ 0 ∷ 0 ∷ []) w

  -- system_reset and system: the state in which the last call, `legacy::shutdown`, leaves the
  -- firmware. None of these returns.
  unfoldable pub system_reset : ℕ → ℕ → W → W
  system_reset reset_type reset_reason w =
      let r = sbi_call fw srst_id 0 (reset_type ∷ reset_reason ∷ 0 ∷ 0 ∷ 0 ∷ 0 ∷ []) w in
      fw.shutdown r.1

  unfoldable pub shutdown : W → W
  shutdown w = system_reset reset_type_shutdown reset_reason_no_reason w

  unfoldable pub reboot : W → W
  reboot w = system_reset reset_type_cold_reboot reset_reason_no_reason w

  unfoldable pub warm_reboot : W → W
  warm_reboot w = system_reset reset_type_warm_reboot reset_reason_no_reason w

  -- pmu
  unfoldable pub get_num_counters : W → SbiResult × W
  get_num_counters w = sbi_call fw pmu_id 0 no_args w

  unfoldable pub get_counter_info : ℕ → W → SbiResult × W
  get_counter_info counter_idx w = sbi_call fw pmu_id 1 (counter_idx ∷ 0 ∷ 0 ∷ 0 ∷ 0 ∷ 0 ∷ []) w

  -- debug_console
  unfoldable pub console_write : ℕ → ℕ → ℕ → W → SbiResult × W
  console_write num_bytes base_addr_lo base_addr_hi w =
      sbi_call fw dbcn_id 0 (num_bytes ∷ base_addr_lo ∷ base_addr_hi ∷ 0 ∷ 0 ∷ 0 ∷ []) w

  unfoldable pub console_read : ℕ → ℕ → ℕ → W → SbiResult × W
  console_read num_bytes base_addr_lo base_addr_hi w =
      sbi_call fw dbcn_id 1 (num_bytes ∷ base_addr_lo ∷ base_addr_hi ∷ 0 ∷ 0 ∷ 0 ∷ []) w

  unfoldable pub console_write_byte : ℕ → W → SbiResult × W
  console_write_byte byte w = sbi_call fw dbcn_id 2 (byte ∷ 0 ∷ 0 ∷ 0 ∷ 0 ∷ 0 ∷ []) w

  -- info
  unfoldable pub is_extension_available : ℕ → W → Bool × W
  is_extension_available id w =
      let r = probe_extension id w in
      (elim r.0 [ ok n ↦ if n == 0 then false else true | err e ↦ false ], r.1)
