-- ===== src/Security.antt =====
-- kernel/security.c: the table of protected regions and the check of a memory access.
pub mod Checks
pub mod Policy
pub mod Copies
mod Tests
use lugh_os.Base.{
  ℕ, zero, suc, ◌+◌, ◌-◌, ◌*◌, ◌%◌, ◌^◌, ltb, leb, ◌==◌, if◌then◌else◌, Bool, true, false, not,
  ◌||◌, ◌&&◌, List, [], ◌∷◌, get_or, set, replicate,
}
use lugh_os.Memory.Blocks.{heap_start, heap_end}

abbrev pub max_protected_regions : ℕ
max_protected_regions = 8

-- `mem_region_t` without the name, which is only printed. Both bounds belong to the region.
pub record MemRegion : Type 0 where
  pub start_addr : ℕ
  pub end_addr : ℕ
  pub read_allowed : Bool
  pub write_allowed : Bool
  pub exec_allowed : Bool

-- `protected_regions` and `protected_region_count`.
pub record Regions : Type 0 where
  pub protected_regions : List MemRegion
  pub count : ℕ

abbrev pub no_region : MemRegion
no_region = record {
  start_addr = 0;
  end_addr = 0;
  read_allowed = false;
  write_allowed = false;
  exec_allowed = false;
}

unfoldable pub region_add : Regions → MemRegion → Regions
region_add t r =
    if leb max_protected_regions t.count
    then t
    else if ltb r.end_addr r.start_addr
    then t
    else record { protected_regions = set t.protected_regions t.count r; count = suc t.count }

-- The section bounds that the linker script emits.
pub record LinkLayout : Type 0 where
  pub text_start : ℕ
  pub rodata_end : ℕ
  pub data_start : ℕ
  pub bss_end : ℕ

-- `x - 1u`
abbrev pub before : ℕ → ℕ
before x = (x + (2 ^ 32 - 1)) % 2 ^ 32

-- `MM_USER_LOAD_BASE` and `MM_USER_REGION_END`.
abbrev pub user_load_base : ℕ
user_load_base = 0x400000

abbrev pub user_region_end : ℕ
user_region_end = 0x800000

abbrev pub null_guard : MemRegion
null_guard = record {
  start_addr = 0x0;
  end_addr = 0xfff;
  read_allowed = false;
  write_allowed = false;
  exec_allowed = false;
}

abbrev pub kernel_text : LinkLayout → MemRegion
kernel_text k = record {
  start_addr = k.text_start;
  end_addr = before k.rodata_end;
  read_allowed = true;
  write_allowed = false;
  exec_allowed = true;
}

abbrev pub kernel_data : LinkLayout → MemRegion
kernel_data k = record {
  start_addr = k.data_start;
  end_addr = before k.bss_end;
  read_allowed = true;
  write_allowed = true;
  exec_allowed = false;
}

abbrev pub kernel_heap : MemRegion
kernel_heap = record {
  start_addr = heap_start;
  end_addr = before heap_end;
  read_allowed = true;
  write_allowed = true;
  exec_allowed = false;
}

abbrev pub user_space : MemRegion
user_space = record {
  start_addr = user_load_base;
  end_addr = before user_region_end;
  read_allowed = true;
  write_allowed = true;
  exec_allowed = true;
}

unfoldable pub security_regions_init : Regions → LinkLayout → Regions
security_regions_init t k =
    let t = record t { count = 0 } in
    let t = region_add t null_guard in
    let t = region_add t (kernel_text k) in
    let t = region_add t (kernel_data k) in
    let t = region_add t kernel_heap in region_add t user_space

-- The overlap of an access with a region, and the permissions it then wants.
abbrev pub overlaps : MemRegion → ℕ → ℕ → Bool
overlaps r address end_address = leb address r.end_addr && leb r.start_addr end_address

abbrev pub permits : MemRegion → Bool → Bool
permits r write =
    if not r.read_allowed then false else if write && not r.write_allowed then false else true

-- The loop over the first `n` regions of the table.
unfoldable pub check_regions : ℕ → List MemRegion → ℕ → ℕ → Bool → Bool
check_regions zero rs address end_address write = true
check_regions (suc n) [] address end_address write = true
check_regions (suc n) (r ∷ rs) address end_address write =
    let rest = check_regions n rs address end_address write in
    if overlaps r address end_address then (if permits r write then rest else false) else rest

-- `size > 0 ? 1 : 0`
abbrev pub one_if_some : ℕ → ℕ
one_if_some size = if ltb 0 size then 1 else 0

unfoldable pub security_validate_memory_access : Regions → ℕ → ℕ → Bool → Bool
security_validate_memory_access t addr size write =
    if (addr == 0) && ltb 0 size
    then false
    else if ltb 0 size && ltb (2 ^ 32 - 1 - size) addr
    then false
    else check_regions t.count t.protected_regions addr ((addr + size - one_if_some size) % 2 ^ 32)
        write
