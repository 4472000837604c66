-- ===== src/Admin/Allocate.antt =====
-- pkg/wgadmin/subnet.go: the allocation of client addresses. An address is its family and its value
-- as a number. `Contains` asks for a value between the first and the last one of the masked prefix,
-- and `host & mask` with a mask of ones is a remainder.
pub mod Lowest
use wgturn_core.Prelude.{
  ℕ, zero, suc, ◌+◌, ◌-◌, ◌%◌, ◌^◌, Bool, true, false, not, ◌&&◌, ◌||◌, List, [], ◌∷◌, Option, none,
  some, Result, ok, err, leb, ltb, ◌==◌, if◌then◌else◌,
}

pub record Address : Type 0 where
  pub is4 : Bool
  pub value : ℕ

pub record Subnet : Type 0 where
  pub network : Address
  pub bits : ℕ

-- `BitLen`
abbrev pub bit_len : Address → ℕ
bit_len a = if a.is4 then 32 else 128

-- The number of addresses of a subnet, and its first one (`Masked().Addr()`).
unfoldable pub size : Subnet → ℕ
size s = 2 ^ (bit_len s.network - s.bits)

unfoldable pub first : Subnet → ℕ
unfolding size
first s = s.network.value - s.network.value % size s

abbrev pub same_bool : Bool → Bool → Bool
same_bool true b = b
same_bool false b = not b

-- `==` on addresses.
abbrev pub same_address : Address → Address → Bool
same_address a b = same_bool a.is4 b.is4 && (a.value == b.value)

-- `Contains`
unfoldable pub in_subnet : Subnet → Address → Bool
in_subnet s a =
    same_bool a.is4 s.network.is4 && (leb (first s) a.value && ltb a.value (first s + size s))

-- `Next`; `none` is the invalid address after the last one.
unfoldable pub next : Address → Option Address
next a = if ltb (a.value + 1) (2 ^ bit_len a) then some (record a { value = a.value + 1 }) else none

-- `isBroadcast`
unfoldable pub is_broadcast : Address → Subnet → Bool
is_broadcast a s = a.is4 && (a.value % size s == size s - 1)

-- The map `used`.
unfoldable pub is_used : List Address → Address → Bool
is_used [] a = false
is_used (b ∷ bs) a = same_address b a || is_used bs a

abbrev pub reserve : Option Address → List Address → List Address
reserve none taken = taken
reserve (some a) taken = a ∷ taken

-- What the loop does with an address that is not used after all: go on at the next one.
abbrev pub onward : (Address → Option Address) → Option Address → Option Address
onward go none = none
onward go (some a) = go a

-- The loop, with the rounds that are left: as many as the subnet has addresses are enough.
unfoldable pub search_free : Subnet → List Address → ℕ → Address → Option Address
search_free s used zero a = none
search_free s used (suc rounds) a =
    let rest = onward (search_free s used rounds) (next a) in
    if not (in_subnet s a)
    then none
    else if is_broadcast a s
    then none
    else if is_used used a
    then rest
    else some a

pub data SubnetError : Type 0 where
  invalid_subnet subnet_exhausted : SubnetError

abbrev pub found_address : Option Address → Result SubnetError Address
found_address none = err subnet_exhausted
found_address (some a) = ok a

abbrev pub network_address : Subnet → Address
network_address s = record s.network { value = first s }

-- `AllocateClientIP`; `none` is a prefix or an address that is not valid.
unfoldable pub allocate_client_ip :
    Option Subnet → Option Address → List Address → Result SubnetError Address
unfolding search_free next
allocate_client_ip none server taken = err invalid_subnet
allocate_client_ip (some s) server taken =
    found_address
      (onward (search_free s (reserve server taken) (size s)) (next (network_address s)))
