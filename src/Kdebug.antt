-- ===== src/Kdebug.antt =====
-- stab_binsearch of kern/kdebug.c, over the table of stabs as a function of their index.
--
-- The bounds `r` and `*region_right` and the final `*region_left` may be -1, and stand here plus
-- one: `r1`, `right1`, `left1`. A table in memory has fewer than 2^30 stabs, so `l + r` stays an
-- `int`.
pub mod Loop
pub mod Bounds
pub mod Contract
pub mod Info
use library_os_exokernel_imp.Base.{
  ℕ, zero, suc, ◌+◌, ◌-◌, ◌*◌, ◌/◌, Bool, true, false, not, ◌&&◌, ◌==◌, ltb, Option, none, some,
  if◌then◌else◌,
}
use mathlib.Core.Option.{map}
use library_os_exokernel_imp.Mmu.{u32}

pub record Stab : Type 0 where
  pub n_strx : ℕ
  pub n_type : ℕ
  pub n_other : ℕ
  pub n_desc : ℕ
  pub n_value : ℕ

-- The variables of stab_binsearch, with `*region_left` and `*region_right`.
pub record Search : Type 0 where
  pub l : ℕ
  pub r1 : ℕ
  pub region_left : ℕ
  pub right1 : ℕ
  pub any_matches : Bool
  pub addr : ℕ

-- `*region_left + 1` and `*region_right + 1` at the end
pub record Region : Type 0 where
  pub left1 : ℕ
  pub right1 : ℕ

-- The loop on `m`: the last of the `n` stabs from `l` on that has the type.
unfoldable pub last_of : (stabs : ℕ → Stab) (type l n : ℕ) → Option ℕ
last_of stabs type l zero = none
last_of stabs type l (suc n) =
    if (stabs (l + n)).n_type == type then some (l + n) else last_of stabs type l n

-- The stab `m` has the type and the value `v`.
unfoldable pub compare_at : (v m true_m : ℕ) → Search → Search
compare_at v m true_m s =
    if ltb v s.addr
    then record s { region_left = m; l = true_m + 1; any_matches = true }
    else if ltb s.addr v
    then record s { right1 = m; r1 = m; any_matches = true }
    else record s { region_left = m; l = m; addr = u32 (s.addr + 1); any_matches = true }

unfoldable pub bisect : (ℕ → Stab) → (true_m : ℕ) → Option ℕ → Search → Search
bisect stabs true_m none s = record s { l = true_m + 1 }
bisect stabs true_m (some m) s = compare_at (stabs m).n_value m true_m s

-- A round of the loop, at l ≤ r.
unfoldable pub search_round : (ℕ → Stab) → (type : ℕ) → Search → Search
search_round stabs type s =
    let true_m = (s.l + (s.r1 - 1)) / 2 in
    bisect stabs true_m (last_of stabs type s.l (true_m + 1 - s.l)) s

-- The loop with fuel; `none` means that the fuel ran out.
unfoldable pub search : ℕ → (ℕ → Stab) → (type : ℕ) → Search → Option Search
search zero stabs type s = none
search (suc fuel) stabs type s =
    let rest = search fuel stabs type (search_round stabs type s) in
    if ltb s.l s.r1 then rest else some s

-- The loop that ends the search, where `l1` is `l + 1`
unfoldable pub rightmost : (stabs : ℕ → Stab) (type left l1 : ℕ) → ℕ
rightmost stabs type left zero = zero
rightmost stabs type left (suc l) =
    if ltb left l && not ((stabs l).n_type == type) then rightmost stabs type left l else suc l

unfoldable pub finish : (ℕ → Stab) → (type : ℕ) → Search → Region
finish stabs type s =
    if not s.any_matches
    then record { left1 = s.region_left + 1; right1 = s.region_left }
    else record { left1 = rightmost stabs type s.region_left s.right1; right1 = s.right1 }

abbrev pub at_start : (left right1 addr : ℕ) → Search
at_start left right1 addr = record {
  l = left;
  r1 = right1;
  region_left = left;
  right1 = right1;
  any_matches = false;
  addr = addr;
}

abbrev pub search_fuel : (left right1 : ℕ) → ℕ
search_fuel left right1 = 2 * (right1 - left) + 2

-- From `*region_left = left` and `*region_right + 1 = right1`.
unfoldable pub stab_binsearch : (ℕ → Stab) → (left right1 type addr : ℕ) → Option Region
unfolding search search_round bisect compare_at last_of finish rightmost
stab_binsearch stabs left right1 type addr =
    map (finish stabs type)
      (search (search_fuel left right1) stabs type (at_start left right1 addr))
