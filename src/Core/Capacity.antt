-- ===== src/Core/Capacity.antt =====
-- internal/core/resources.go: `HostCapacity` and its admission check. Memory is int64 arithmetic.
use panel4wp.Prelude.{
  ℕ, ◌*◌, ◌^◌, ◌≤◌, ◌<◌, ◌≡◌, true, false, ◌||◌, arith, Result, ok, fail_if, ◌>>◌, map_err, leb→le,
}
use panel4wp.Prelude.Int.{
  ℤ, pos, negsuc, pos_part, neg_part, ltb_ℤ, leb_ℤ, max_ℤ, min_ℤ, ◌≤ℤ◌, ◌-ℤ◌, ◌+ℤ◌, ◌*ℤ◌, wrap64,
  wrap64_id, int_laws, -ℤ-le,
}
use panel4wp.Float.{Float, nano, const, ltb_f, leb_f, sub_f, add_f, scale_f, max_f}
use panel4wp.Core.Model.{Resources, HostCapacity}
use panel4wp.Core.Validate.{Invalid, validate_resources, validate_resources-InRange}

pub data Refusal : Type 0 where
  invalid : Invalid → Refusal
  unavailable no_memory no_cpus no_disk : Refusal

abbrev sub64 : ℤ → ℤ → ℤ
sub64 a b = wrap64 (a -ℤ b)

unfoldable pub available_memory_bytes : HostCapacity → ℤ
available_memory_bytes h = max_ℤ (pos 0) (
    sub64 (sub64 (sub64 h.memory_bytes h.reserved_memory_bytes) h.allocated_memory_bytes)
      h.other_memory_bytes)

unfoldable pub available_cpus : HostCapacity → Float
available_cpus h =
    max_f (const 0) (sub_f (sub_f (sub_f h.cpus h.reserved_cpus) h.allocated_cpus) h.other_cpus)

abbrev mib : ℕ
mib = 1024 * 1024

-- int64(r.MemoryMB)*2*1024*1024
abbrev pub demand_bytes : Resources → ℤ
demand_bytes r = wrap64 (r.memory_mb *ℤ pos (2 * mib))

unfoldable pub check : HostCapacity → Resources → Result Refusal (Unit {0})
check h r = do
  map_err invalid (validate_resources r)
  fail_if (leb_ℤ h.memory_bytes (pos 0) || leb_f h.cpus (const 0)) unavailable
  fail_if (ltb_ℤ (available_memory_bytes h) (demand_bytes r)) no_memory
  fail_if (ltb_f (add_f (available_cpus h) (const 1000)) (scale_f 2 r.cpus)) no_cpus
  fail_if (ltb_ℤ (min_ℤ h.docker_disk_free_bytes h.data_disk_free_bytes) (pos (2 * 1024 * mib)))
      no_disk
  ok tt

-- Amounts of memory of a real host, far below the range of int64.
abbrev IsAmount : ℤ → Type 0
IsAmount a = (neg_part a ≡ 0) × (pos_part a < 2 ^ 60)

pub record IsSane (h : HostCapacity) : Type 0 where
  pub memory : IsAmount h.memory_bytes
  pub reserved : IsAmount h.reserved_memory_bytes
  pub allocated : IsAmount h.allocated_memory_bytes
  pub other : IsAmount h.other_memory_bytes

-- The bytes that are committed on the host, and those that both containers of a site would add.
abbrev pub committed : HostCapacity → ℤ
committed h = h.reserved_memory_bytes +ℤ h.allocated_memory_bytes +ℤ h.other_memory_bytes

available_memory-lem :
    (h : HostCapacity)
    → IsSane h
    → available_memory_bytes h
      ≡ max_ℤ (pos 0) (
          h.memory_bytes -ℤ h.reserved_memory_bytes -ℤ h.allocated_memory_bytes
          -ℤ h.other_memory_bytes)
unfolding available_memory_bytes
available_memory-lem h s =
    let a = h.memory_bytes -ℤ h.reserved_memory_bytes in
    let b = a -ℤ h.allocated_memory_bytes in
    let c = b -ℤ h.other_memory_bytes in
    let la = -ℤ-le h.memory_bytes h.reserved_memory_bytes in
    let lb = -ℤ-le a h.allocated_memory_bytes in
    let lc = -ℤ-le b h.other_memory_bytes in
    rw (wrap64_id a (omega arith), wrap64_id b (omega arith), wrap64_id c (omega arith))

demand_pos : (n : ℕ) → n ≤ 8192 → wrap64 (pos n *ℤ pos (2 * mib)) ≡ pos (n * (2 * mib))
unfolding wrap64 ◌*ℤ◌
demand_pos n h = ground arith

demand_lem :
    (m : ℤ)
    → pos 256 ≤ℤ m
    → m ≤ℤ pos 8192
    → wrap64 (m *ℤ pos (2 * mib)) ≡ pos (pos_part m * (2 * mib))
demand_lem (pos n) l h = demand_pos n (omega arith)
demand_lem (negsuc n) l h = absurd (omega arith)

max_budget :
    (m r a o : ℤ) (d : ℕ)
    → 0 < d
    → pos d ≤ℤ max_ℤ (pos 0) (m -ℤ r -ℤ a -ℤ o)
    → r +ℤ a +ℤ o +ℤ pos d ≤ℤ m
max_budget m r a o d p h = let g : pos d ≤ℤ m -ℤ r -ℤ a -ℤ o = ground arith in omega int_laws

check_parts :
    (h : HostCapacity) (r : Resources)
    → check h r ≡ ok tt
    → (validate_resources r ≡ ok tt)
      × (demand_bytes r ≤ℤ available_memory_bytes h)
      × (ltb_f (add_f (available_cpus h) (const 1000)) (scale_f 2 r.cpus) ≡ false)
      × (pos (2 * 1024 * mib) ≤ℤ h.docker_disk_free_bytes)
      × (pos (2 * 1024 * mib) ≤ℤ h.data_disk_free_bytes)
unfolding check
check_parts h r e = ground arith

-- Whatever is admitted fits the host's memory beside the reserve and all that is committed.
pub check-memory_budget :
    (h : HostCapacity) (r : Resources)
    → IsSane h
    → check h r ≡ ok tt
    → committed h +ℤ pos (pos_part r.memory_mb * (2 * mib)) ≤ℤ h.memory_bytes
check-memory_budget h r s e =
    let (v, fits, _, _, _) = check_parts h r e in
    let range = validate_resources-InRange r v in
    let d = demand_lem r.memory_mb range.memory_low range.memory_high in
    let fits' : pos (pos_part r.memory_mb * (2 * mib)) ≤ℤ available_memory_bytes h = rw d at fits in
    max_budget _ _ _ _ (pos_part r.memory_mb * (2 * mib)) (omega (arith, range.memory_low))
      (rw (available_memory-lem h s) at fits')

twice_ℤ : (c : ℤ) → pos 2 *ℤ c ≡ c +ℤ c
unfolding ◌*ℤ◌ ◌+ℤ◌
twice_ℤ c = ground arith

max_f-zero : (x : ℤ) → max_f (const 0) (nano x) ≡ nano (max_ℤ (pos 0) x)
unfolding max_f
max_f-zero x = ground arith

max_slack :
    (x c : ℤ)
    → pos 250_000_000 ≤ℤ c
    → ltb_ℤ (max_ℤ (pos 0) x +ℤ pos 1000) (c +ℤ c) ≡ false
    → c +ℤ c ≤ℤ x +ℤ pos 1000
unfolding ◌+ℤ◌
max_slack x c l h = ground arith

cpu_budget :
    (t r a o c : ℤ)
    → pos 250_000_000 ≤ℤ c
    → ltb_f
        (add_f
          (max_f (const 0) (sub_f (sub_f (sub_f (nano t) (nano r)) (nano a)) (nano o)))
          (const 1000))
        (scale_f 2 (nano c))
      ≡ false
    → r +ℤ a +ℤ o +ℤ (c +ℤ c) ≤ℤ t +ℤ pos 1000
unfolding add_f sub_f scale_f
cpu_budget t r a o c l h =
    let x = t -ℤ r -ℤ a -ℤ o in
    let g : ltb_ℤ (max_ℤ (pos 0) x +ℤ pos 1000) (c +ℤ c) ≡ false =
      rw (max_f-zero x, twice_ℤ c) at h in
    let k : c +ℤ c ≤ℤ x +ℤ pos 1000 = max_slack x c l g in omega int_laws

-- And its CPUs, up to the tolerance of a millionth.
pub check-cpu_budget :
    (h : HostCapacity) (r : Resources) {total reserved allocated other c : ℤ}
    → h.cpus ≡ nano total
    → h.reserved_cpus ≡ nano reserved
    → h.allocated_cpus ≡ nano allocated
    → h.other_cpus ≡ nano other
    → r.cpus ≡ nano c
    → check h r ≡ ok tt
    → reserved +ℤ allocated +ℤ other +ℤ (c +ℤ c) ≤ℤ total +ℤ pos 1000
unfolding available_cpus max_f
check-cpu_budget h r {total = t'} {reserved = r'} {allocated = a'} {other = o'} {c} t a b o k e =
    let (v, _, fits, _, _) = check_parts h r e in
    let low : leb_f (const 250_000_000) r.cpus ≡ true = (validate_resources-InRange r v).cpus_low in
    cpu_budget t' r' a' o' c (leb→le _ _ (rw k at low)) (rw (t, a, b, o, k, available_cpus) at fits)

max_room :
    (m r a o : ℤ) (d : ℕ) → r +ℤ a +ℤ o +ℤ pos d ≤ℤ m → pos d ≤ℤ max_ℤ (pos 0) (m -ℤ r -ℤ a -ℤ o)
max_room m r a o d h = let g : pos d ≤ℤ m -ℤ r -ℤ a -ℤ o = omega int_laws in ground arith

max_reach : (x c : ℤ) → c +ℤ c ≤ℤ x → ltb_ℤ (max_ℤ (pos 0) x +ℤ pos 1000) (c +ℤ c) ≡ false
unfolding ◌+ℤ◌
max_reach x c h = ground arith

cpu_room :
    (t r a o c : ℤ)
    → r +ℤ a +ℤ o +ℤ (c +ℤ c) ≤ℤ t
    → ltb_f
        (add_f
          (max_f (const 0) (sub_f (sub_f (sub_f (nano t) (nano r)) (nano a)) (nano o)))
          (const 1000))
        (scale_f 2 (nano c))
      ≡ false
unfolding add_f sub_f scale_f
cpu_room t r a o c h =
    let x = t -ℤ r -ℤ a -ℤ o in rw (max_f-zero x, twice_ℤ c) (max_reach x c (omega int_laws))

check_of_parts :
    (h : HostCapacity) (r : Resources)
    → validate_resources r ≡ ok tt
    → (leb_ℤ h.memory_bytes (pos 0) || leb_f h.cpus (const 0)) ≡ false
    → demand_bytes r ≤ℤ available_memory_bytes h
    → ltb_f (add_f (available_cpus h) (const 1000)) (scale_f 2 r.cpus) ≡ false
    → pos (2 * 1024 * mib) ≤ℤ h.docker_disk_free_bytes
    → pos (2 * 1024 * mib) ≤ℤ h.data_disk_free_bytes
    → check h r ≡ ok tt
unfolding check
check_of_parts h r v u m c d e = ground arith

-- A site is refused nothing that fits: valid limits whose two containers fit the memory and the CPUs
-- that are left, on a host with both disks above 2 GiB, are admitted.
pub check-admits :
    (h : HostCapacity) (r : Resources) {total reserved allocated other c : ℤ}
    → IsSane h
    → validate_resources r ≡ ok tt
    → h.cpus ≡ nano total
    → h.reserved_cpus ≡ nano reserved
    → h.allocated_cpus ≡ nano allocated
    → h.other_cpus ≡ nano other
    → r.cpus ≡ nano c
    → committed h +ℤ pos (pos_part r.memory_mb * (2 * mib)) ≤ℤ h.memory_bytes
    → reserved +ℤ allocated +ℤ other +ℤ (c +ℤ c) ≤ℤ total
    → pos 1 ≤ℤ h.memory_bytes
    → pos 1 ≤ℤ total
    → pos (2 * 1024 * mib) ≤ℤ h.docker_disk_free_bytes
    → pos (2 * 1024 * mib) ≤ℤ h.data_disk_free_bytes
    → check h r ≡ ok tt
unfolding available_cpus max_f
check-admits h r {total = t'} {reserved = r'} {allocated = a'} {other = o'} {c} s v t a b o k m q pm
      pt d e =
    let range = validate_resources-InRange r v in
    check_of_parts h r v (rw t (ground arith))
      (rw (demand_lem r.memory_mb range.memory_low range.memory_high, available_memory-lem h s)
        (max_room h.memory_bytes h.reserved_memory_bytes h.allocated_memory_bytes
          h.other_memory_bytes (pos_part r.memory_mb * (2 * mib)) m))
      (rw (t, a, b, o, k, available_cpus) (cpu_room t' r' a' o' c q)) d e
