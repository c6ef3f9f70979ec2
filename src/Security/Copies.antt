-- ===== src/Security/Copies.antt =====
-- kernel/mm/memory_utils.c: the guarded memory and string functions, over a memory that gives
-- each address its byte.
pub mod Moves
pub mod Strings
use lugh_os.Base.{
  ℕ, zero, suc, ◌+◌, ◌-◌, ◌%◌, ◌^◌, ltb, leb, ◌==◌, if◌then◌else◌, Bool, true, false, not, ◌||◌,
  ◌&&◌,
}
use lugh_os.Security.{Regions, security_validate_memory_access}

abbrev pub Bytes : Type 0
Bytes = ℕ → ℕ

-- `*(uint8_t*)a = v`
abbrev pub store : Bytes → ℕ → ℕ → Bytes
store m a v x = if x == a then v else m x

-- The loop of `memcpy` from byte `i` on, `k` bytes.
pub copy_up : Bytes → ℕ → ℕ → ℕ → ℕ → Bytes
copy_up m dest src i zero = m
copy_up m dest src i (suc k) = copy_up (store m (dest + i) (m (src + i))) dest src (suc i) k

-- The loop of `memmove` that runs from the last of `k` bytes to the first.
pub copy_down : Bytes → ℕ → ℕ → ℕ → Bytes
copy_down m dest src zero = m
copy_down m dest src (suc k) = copy_down (store m (dest + k) (m (src + k))) dest src k

-- The test that `memcpy` and `memmove` begin with.
abbrev pub may_copy : Regions → ℕ → ℕ → ℕ → Bool
may_copy t dest src n =
    security_validate_memory_access t dest n true && security_validate_memory_access t src n false

unfoldable pub memcpy : Regions → Bytes → ℕ → ℕ → ℕ → Bytes
memcpy t m dest src n = if may_copy t dest src n then copy_up m dest src 0 n else m

unfoldable pub memmove : Regions → Bytes → ℕ → ℕ → ℕ → Bytes
memmove t m dest src n =
    if not (may_copy t dest src n)
    then m
    else if ltb dest src
    then copy_up m dest src 0 n
    else if ltb src dest
    then copy_down m dest src n
    else m

pub fill : Bytes → ℕ → ℕ → ℕ → ℕ → Bytes
fill m s c i zero = m
fill m s c i (suc k) = fill (store m (s + i) (c % 2 ^ 8)) s c (suc i) k

unfoldable pub memset : Regions → Bytes → ℕ → ℕ → ℕ → Bytes
memset t m s c n = if security_validate_memory_access t s n true then fill m s c 0 n else m

abbrev pub max_string : ℕ
max_string = 10000

abbrev pub readable : Regions → ℕ → Bool
readable t a = security_validate_memory_access t a 1 false

-- The loop of `strlen` at length `len`, with `room` more steps before the length passes 10000.
pub strlen_from : Regions → Bytes → ℕ → ℕ → ℕ → ℕ
strlen_from t m s len zero = 0
strlen_from t m s len (suc room) =
    let rest = strlen_from t m s (suc len) room in
    if readable t (s + len) && not (m (s + len) == 0) then rest else len

unfoldable pub strlen : Regions → Bytes → ℕ → ℕ
strlen t m s = if readable t s then strlen_from t m s 0 (suc max_string) else 0

unfoldable pub strcpy : Regions → Bytes → ℕ → ℕ → Bytes
strcpy t m dest src = memcpy t m dest src (strlen t m src + 1)
