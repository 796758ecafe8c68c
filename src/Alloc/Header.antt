-- ===== src/Alloc/Header.antt =====
-- `BlockHeader` of src/init/alloc/metadata.rs. The padding bytes carry nothing and are left out.
-- A header's time stamp comes from a counter, which is passed in.
use nt_rustos.Common.{
  ℕ, ◌-◌, ◌/◌, ◌%◌, ◌^◌, add32, add64, Bool, ltb, ◌==◌, if◌then◌else◌, true, false,
}
use nt_rustos.Alloc.Purpose
use nt_rustos.Alloc.Purpose.{AllocPurpose, unknown}

abbrev pub block_magic : ℕ
block_magic = 0xB10C4EA0

-- `size_of::<BlockHeader>()` on a 64-bit target: 8 + 1 (+ 3) + 4 + 8 + 1 (+ 7) + 8 + 4 + 4 bytes.
abbrev pub header_size : ℕ
header_size = 48

pub data BlockStatus : Type 0 where
  free allocated : BlockStatus

-- `status as u32`
abbrev pub status_code : BlockStatus → ℕ
status_code free = 0
status_code allocated = 1

-- `status == BlockStatus::Free`
abbrev pub is_free : BlockStatus → Bool
is_free free = true
is_free allocated = false

pub record BlockHeader : Type 0 where
  pub size : ℕ
  pub status : BlockStatus
  pub magic : ℕ
  pub alloc_id : ℕ
  pub purpose : AllocPurpose
  pub timestamp : ℕ
  pub checksum : ℕ

-- The low and the high half of a 64-bit number, each as `u32`.
abbrev lo32 : ℕ → ℕ
lo32 n = n % 2 ^ 32

abbrev hi32 : ℕ → ℕ
hi32 n = n / 2 ^ 32 % 2 ^ 32

unfoldable pub calculate_checksum : BlockHeader → ℕ
calculate_checksum h =
    let c = lo32 h.size in
    let c = add32 c (hi32 h.size) in
    let c = add32 c (status_code h.status) in
    let c = add32 c h.magic in
    let c = add32 c (lo32 h.alloc_id) in
    let c = add32 c (hi32 h.alloc_id) in
    let c = add32 c (Purpose.code h.purpose) in
    let c = add32 c (lo32 h.timestamp) in add32 c (hi32 h.timestamp)

unfoldable pub update_checksum : BlockHeader → BlockHeader
update_checksum h = record h { checksum = calculate_checksum h }

unfoldable pub new : ℕ → ℕ → BlockStatus → BlockHeader
unfolding update_checksum
new now size status = update_checksum (record {
  size = size;
  status = status;
  magic = block_magic;
  alloc_id = 0;
  purpose = unknown;
  timestamp = now;
  checksum = 0;
})

unfoldable pub validate : BlockHeader → Bool
validate h =
    if h.magic == block_magic
    then (if h.checksum == calculate_checksum h then true else false)
    else false

abbrev pub total_size : BlockHeader → ℕ
total_size h = add64 h.size header_size

-- `user_data_addr` of the header that stands at `addr`.
abbrev pub user_data_addr : ℕ → ℕ
user_data_addr addr = add64 addr header_size

unfoldable pub set_purpose : AllocPurpose → BlockHeader → BlockHeader
unfolding update_checksum
set_purpose p h = update_checksum (record h { purpose = p })

unfoldable pub set_alloc_id : ℕ → BlockHeader → BlockHeader
unfolding update_checksum
set_alloc_id id h = update_checksum (record h { alloc_id = id })

unfoldable pub update_timestamp : ℕ → BlockHeader → BlockHeader
unfolding update_checksum
update_timestamp now h = update_checksum (record h { timestamp = now })

-- `now.saturating_sub(timestamp) > threshold`
unfoldable pub is_old : ℕ → ℕ → BlockHeader → Bool
is_old now threshold h = ltb threshold (now - h.timestamp)
