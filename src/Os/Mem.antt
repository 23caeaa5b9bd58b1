-- ===== src/Os/Mem.antt =====
-- src/os/mem.rs and `MemoryRegion` of src/os/mod.rs: the enums by their numbers.
use ctru_rt.Base.{ℕ, ◌+◌, bit_or, ◌<<◌}

pub data MemoryRegion : Type 0 where
  all application system base : MemoryRegion

unfoldable pub region_number : MemoryRegion → ℕ
region_number all = 0
region_number application = 1
region_number system = 2
region_number base = 3

-- `MemoryRegion::size`, over the words that the configuration memory holds.
unfoldable pub region_size : (ℕ → ℕ) → MemoryRegion → ℕ
region_size cfgmem all = cfgmem 0x1FF80040 + cfgmem 0x1FF80044 + cfgmem 0x1FF80048
region_size cfgmem application = cfgmem 0x1FF80040
region_size cfgmem system = cfgmem 0x1FF80044
region_size cfgmem base = cfgmem 0x1FF80048

pub data MemoryOperationTarget : Type 0 where
  heap linear_heap : MemoryOperationTarget

unfoldable pub target_number : MemoryOperationTarget → ℕ
target_number heap = 0x0_0000
target_number linear_heap = 0x1_0000

pub data MemoryOperationRegion : Type 0 where
  app sys_region base_region : MemoryOperationRegion

unfoldable pub operation_region_number : MemoryOperationRegion → ℕ
unfolding region_number
operation_region_number app = region_number application << 16
operation_region_number sys_region = region_number system << 16
operation_region_number base_region = region_number base << 16

pub data MemoryOperationAction : Type 0 where
  free reserve allocate_action map_action unmap change_protection : MemoryOperationAction

unfoldable pub action_number : MemoryOperationAction → ℕ
action_number free = 1
action_number reserve = 2
action_number allocate_action = 3
action_number map_action = 4
action_number unmap = 5
action_number change_protection = 6

-- `MemoryOperation::new`
unfoldable pub new : MemoryOperationAction → MemoryOperationRegion → MemoryOperationTarget → ℕ
unfolding action_number operation_region_number target_number
new action region target =
    bit_or (bit_or (action_number action) (operation_region_number region)) (target_number target)

unfoldable pub allocate : ℕ
unfolding action_number
allocate = action_number allocate_action

unfoldable pub linear : ℕ → ℕ
unfolding target_number
linear op = bit_or op (target_number linear_heap)

pub data MemoryPermission : Type 0 where
  no_access r w rw x rx wx rwx dont_care : MemoryPermission

unfoldable pub permission_number : MemoryPermission → ℕ
permission_number no_access = 0
permission_number r = 1
permission_number w = 2
permission_number MemoryPermission.rw = 3
permission_number x = 4
permission_number rx = 5
permission_number wx = 6
permission_number rwx = 7
permission_number dont_care = 0x1000_0000

pub data MemoryState : Type 0 where
  free_state reserved io static code private shared continuous : MemoryState
  aliased alias alias_code locked : MemoryState

unfoldable pub state_number : MemoryState → ℕ
state_number free_state = 0
state_number reserved = 1
state_number io = 2
state_number static = 3
state_number code = 4
state_number private = 5
state_number shared = 6
state_number continuous = 7
state_number aliased = 8
state_number alias = 9
state_number alias_code = 10
state_number locked = 11

-- The permission and the state are the numbers that the kernel gives, which the source transmutes.
pub record QueryResult : Type 0 where
  pub base_process_virtual_address : ℕ
  pub size : ℕ
  pub permission : ℕ
  pub state : ℕ
  pub page_flags : ℕ
