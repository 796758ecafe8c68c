-- ===== src/Alloc/Purpose.antt =====
-- `AllocPurpose` of src/init/alloc/handover.rs, and its tables.
use Prim.Native.String.{String}
use nt_rustos.Common.{ℕ, Bool, true, false}

pub data AllocPurpose : Type 0 where
  unknown interrupt_table process_control_block page_table kernel_stack kernel_heap driver_buffer :
      AllocPurpose
  file_system_meta network_buffer temp_buffer bootstrap_data device_tree symbol_table module_code :
      AllocPurpose
  cache_buffer shared_memory user_data system_call debugging testing : AllocPurpose

-- `purpose as u8`.
unfoldable pub code : AllocPurpose → ℕ
code unknown = 0
code interrupt_table = 1
code process_control_block = 2
code page_table = 3
code kernel_stack = 4
code kernel_heap = 5
code driver_buffer = 6
code file_system_meta = 7
code network_buffer = 8
code temp_buffer = 9
code bootstrap_data = 10
code device_tree = 11
code symbol_table = 12
code module_code = 13
code cache_buffer = 14
code shared_memory = 15
code user_data = 16
code system_call = 17
code debugging = 18
code testing = 19

-- `AllocPurpose::is_reclaimable`
unfoldable pub is_reclaimable : AllocPurpose → Bool
is_reclaimable temp_buffer = true
is_reclaimable cache_buffer = true
is_reclaimable testing = true
is_reclaimable unknown = true
is_reclaimable _ = false

-- `AllocPurpose::is_critical`
unfoldable pub is_critical : AllocPurpose → Bool
is_critical interrupt_table = true
is_critical process_control_block = true
is_critical page_table = true
is_critical kernel_stack = true
is_critical bootstrap_data = true
is_critical device_tree = true
is_critical _ = false

-- `AllocPurpose::is_movable`
unfoldable pub is_movable : AllocPurpose → Bool
is_movable temp_buffer = true
is_movable cache_buffer = true
is_movable user_data = true
is_movable testing = true
is_movable _ = false

-- `AllocPurpose::requires_special_alignment`
unfoldable pub requires_special_alignment : AllocPurpose → Bool
requires_special_alignment page_table = true
requires_special_alignment interrupt_table = true
requires_special_alignment device_tree = true
requires_special_alignment _ = false

-- `AllocPurpose::recommended_alignment`
unfoldable pub recommended_alignment : AllocPurpose → ℕ
recommended_alignment page_table = 4096
recommended_alignment interrupt_table = 256
recommended_alignment device_tree = 8
recommended_alignment _ = 8

-- `AllocPurpose::priority`, 0 the highest.
unfoldable pub priority : AllocPurpose → ℕ
priority unknown = 255
priority interrupt_table = 0
priority process_control_block = 2
priority page_table = 1
priority kernel_stack = 3
priority kernel_heap = 10
priority driver_buffer = 20
priority file_system_meta = 60
priority network_buffer = 70
priority temp_buffer = 240
priority bootstrap_data = 4
priority device_tree = 5
priority symbol_table = 50
priority module_code = 40
priority cache_buffer = 100
priority shared_memory = 80
priority user_data = 90
priority system_call = 30
priority debugging = 200
priority testing = 250

-- `AllocPurpose::description`
unfoldable pub description : AllocPurpose → String
description unknown = "Unknown"
description interrupt_table = "Interrupt Table"
description process_control_block = "Process Control Block"
description page_table = "Page Table"
description kernel_stack = "Kernel Stack"
description kernel_heap = "Kernel Heap"
description driver_buffer = "Driver Buffer"
description file_system_meta = "FileSystem Metadata"
description network_buffer = "Network Buffer"
description temp_buffer = "Temporary Buffer"
description bootstrap_data = "Bootstrap Data"
description device_tree = "Device Tree"
description symbol_table = "Symbol Table"
description module_code = "Module Code"
description cache_buffer = "Cache Buffer"
description shared_memory = "Shared Memory"
description user_data = "User Data"
description system_call = "System Call"
description debugging = "Debugging Info"
description testing = "Testing Data"

-- `AllocPurpose::short_name`
unfoldable pub short_name : AllocPurpose → String
short_name unknown = "UNK"
short_name interrupt_table = "INT"
short_name process_control_block = "PCB"
short_name page_table = "PGT"
short_name kernel_stack = "KST"
short_name kernel_heap = "KHP"
short_name driver_buffer = "DRV"
short_name file_system_meta = "FSM"
short_name network_buffer = "NET"
short_name temp_buffer = "TMP"
short_name bootstrap_data = "BST"
short_name device_tree = "DTB"
short_name symbol_table = "SYM"
short_name module_code = "MOD"
short_name cache_buffer = "CHE"
short_name shared_memory = "SHM"
short_name user_data = "USR"
short_name system_call = "SYS"
short_name debugging = "DBG"
short_name testing = "TST"
