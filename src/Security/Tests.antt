-- ===== src/Security/Tests.antt =====
-- Runs of the access check (kernel/security.c) and of the guarded copies
-- (kernel/mm/memory_utils.c) over one link layout.
use lugh_os.Base.{
  ℕ, zero, suc, ◌+◌, ◌≤◌, ◌<◌, true, false, if◌then◌else◌, ◌≡◌, ◌≢◌, ◌↔◌, ◌==◌, refl, arith,
  replicate, inr,
}
use lugh_os.Security.{
  Regions, LinkLayout, no_region, region_add, check_regions, security_regions_init,
  security_validate_memory_access,
}
use lugh_os.Security.Checks.{IsValid, IsAllowed, security_validate_memory_access_lem}
use lugh_os.Security.Policy.{
  IsLayout, IsPermitted, init-IsTable, IsTable-IsValid, security_regions_init_lem,
}
use lugh_os.Security.Copies.{Bytes, may_copy, memcpy, memmove, memset, strcpy, readable}
use lugh_os.Security.Copies.Moves.{copied, memmove_lem, memcpy-memmove, kernel_text_unchanged}
use lugh_os.Security.Copies.Strings.{IsString, IsCopy, strlen-strcpy}

abbrev no_regions : Regions
no_regions = record { protected_regions = replicate 8 no_region; count = 0 }

-- x86: the kernel at 1 MB.
abbrev layout : LinkLayout
layout = record {
  text_start = 0x100000;
  rodata_end = 0x120000;
  data_start = 0x120000;
  bss_end = 0x200000;
}

layout-IsLayout : IsLayout layout
layout-IsLayout = record {
  text = omega arith;
  text_end = omega arith;
  data_region = omega arith;
  data_end = omega arith;
}

abbrev built : Regions
built = security_regions_init no_regions layout

built-IsValid : IsValid built
built-IsValid =
    IsTable-IsValid built layout (init-IsTable no_regions layout refl layout-IsLayout)
      layout-IsLayout

-- "hi" at the start of the user space.
abbrev hi : Bytes
hi x = if x == 0x400000 then 104 else if x == 0x400001 then 105 else 0

unreadable_null : readable built 0 ≡ false
unfolding security_validate_memory_access
unreadable_null = refl

text_write : security_validate_memory_access built 0x11fffe 4 true ≡ false
unfolding security_validate_memory_access check_regions security_regions_init region_add
text_write = refl

heap_write : security_validate_memory_access built 0x800000 5 true ≡ true
unfolding security_validate_memory_access check_regions security_regions_init region_add
heap_write = refl

hi-IsString : IsString built hi 0x400000 2
unfolding security_validate_memory_access check_regions security_regions_init region_add
hi-IsString = record {
  short = omega arith;
  may_read = λ i. λ l. reads i l;
  chars = λ i. λ l. letters i l;
  terminated = refl;
}
  where
    reads : (i : ℕ) → i ≤ 2 → readable built (0x400000 + i) ≡ true
    reads zero l = refl
    reads (suc zero) l = refl
    reads (suc (suc zero)) l = refl
    reads (suc (suc (suc i))) l = absurd (omega arith)

    letters : (i : ℕ) → i < 2 → hi (0x400000 + i) ≢ 0
    letters zero l e = omega (arith, e)
    letters (suc zero) l e = omega (arith, e)
    letters (suc (suc i)) l e = absurd (omega arith)

security_validate_memory_access_lem_example :
    (security_validate_memory_access built 0x800000 5 true ≡ true) ↔ IsAllowed built 0x800000 5 true
security_validate_memory_access_lem_example =
    security_validate_memory_access_lem built 0x800000 5 true built-IsValid (omega arith)
      (omega arith)

security_regions_init_lem_example :
    (security_validate_memory_access (security_regions_init no_regions layout) 0x11fffe 4 true
      ≡ true)
    ↔ IsPermitted layout 0x11fffe 4 true
security_regions_init_lem_example =
    security_regions_init_lem no_regions layout 0x11fffe 4 true refl layout-IsLayout (omega arith)
      (omega arith)

memmove_lem_example : memmove built hi 0x400001 0x400000 2 0x400002 ≡ (
    if may_copy built 0x400001 0x400000 2
    then copied hi 0x400001 0x400000 2 0x400002
    else hi 0x400002)
memmove_lem_example = memmove_lem built hi 0x400001 0x400000 2 0x400002

memcpy-memmove_example :
    memcpy built hi 0x800000 0x400000 2 0x800001 ≡ memmove built hi 0x800000 0x400000 2 0x800001
memcpy-memmove_example = memcpy-memmove built hi 0x800000 0x400000 2 0x800001 (inr (omega arith))

kernel_text_unchanged_example :
    (memcpy (security_regions_init no_regions layout) hi 0x11fffe 0x400000 4 0x11ffff ≡ 0)
    × (memmove (security_regions_init no_regions layout) hi 0x11fffe 0x400000 4 0x11ffff ≡ 0)
    × (memset (security_regions_init no_regions layout) hi 0x11fffe 7 4 0x11ffff ≡ 0)
kernel_text_unchanged_example =
    kernel_text_unchanged no_regions layout hi 0x11fffe 0x400000 7 4 0x11ffff
      record { room = refl; layout = layout-IsLayout; inside = inr (omega arith, omega arith) }
      (omega arith)

strlen-strcpy_example : IsCopy built hi (strcpy built hi 0x800000 0x400000) 0x800000 0x400000 2
unfolding security_validate_memory_access check_regions security_regions_init region_add
strlen-strcpy_example =
    strlen-strcpy built hi 0x800000 0x400000 2 built-IsValid hi-IsString refl (inr (omega arith))
