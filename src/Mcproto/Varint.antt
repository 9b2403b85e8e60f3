-- ===== src/Mcproto/Varint.antt =====
-- appendVarint writes the groups of seven bits that decodeVarint and readVarint put together.
use proxygo.Base.{
  ℕ, zero, suc, ◌+◌, ◌*◌, ◌/◌, ◌%◌, ◌^◌, ◌≤◌, ◌<◌, ◌≡◌, refl, ap, ◌∙◌, bit_and, bit_or, arith, true,
  false, List, [], ◌∷◌, ◌++◌, append_assoc, lt→ltb, ltb, if◌then◌else◌, length, All,
}
use proxygo.Base.Bits.{low_seven, top_bit, with_top_bit, bit_or_disjoint, shift_seven}
use proxygo.Mcproto.{or_group, is_last, append_varint_loop, append_varint}
use mathlib.Core.WellFounded.{Acc}
use native.Mathlib.Decide.{dec_lt}
use native.Mathlib.Nat.{mod-eq_of_lt, div-add-mod}

-- The groups of seven bits of `v`, lowest first, all but the last marked, for `v` below
-- 128 ^ (k + 1).
unfoldable pub groups : ℕ → ℕ → List ℕ
groups zero v = v ∷ []
groups (suc k) v =
    let rest = groups k (v / 128) in if ltb v 128 then v ∷ [] else (v % 128 + 128) ∷ rest

low_group : (u : ℕ) → bit_and u 0x7f % 256 ≡ u % 128
low_group u = omega (arith, low_seven u)

inner_group : (u : ℕ) → bit_or (bit_and u 0x7f % 256) 0x80 ≡ u % 128 + 128
inner_group u = rw low_group (with_top_bit _ (omega arith))

append_varint_loop-groups :
    (k : ℕ) (b : List ℕ) (u : ℕ) (w : Acc ◌<◌ u)
    → u < 128 ^ suc k
    → append_varint_loop b u w ≡ b ++ groups k u
unfolding append_varint_loop groups
append_varint_loop-groups zero b u (Acc.intro _ below) h = ground (arith, low_group u)
append_varint_loop-groups (suc k) b u (Acc.intro _ below) h =
    let front : List ℕ = (u % 128 + 128) ∷ [] in
    grind (
      arith,
      low_group u,
      inner_group u,
      λ (w : Acc ◌<◌ (u / 128)). append_varint_loop-groups k (b ++ front) (u / 128) w (omega arith),
      append_assoc b front (groups k (u / 128)),
    )

-- appendVarint keeps what is there and appends at most five groups.
pub append_varint-groups : (b : List ℕ) (v : ℕ) → v < 2 ^ 32 → append_varint b v ≡ b ++ groups 4 v
unfolding append_varint
append_varint-groups b v h = append_varint_loop-groups 4 b v _ (omega arith)

pub length-groups : (k v : ℕ) → (1 ≤ length (groups k v)) × (length (groups k v) ≤ k + 1)
unfolding groups
length-groups zero v = omega arith
length-groups (suc k) v = ground (arith, length-groups k (v / 128))

pub groups-bytes : (k v : ℕ) → v < 128 ^ suc k → All (λ b. b < 256) (groups k v)
unfolding groups
groups-bytes zero v h = omega arith
groups-bytes (suc k) v h = ground (arith, groups-bytes k (v / 128) (omega arith))

-- One group below the modulus is added.
pub or_group-add :
    (v b i : ℕ)
    → v < 2 ^ (7 * i)
    → b % 128 * 2 ^ (7 * i) < 2 ^ 32
    → or_group v b i ≡ v + b % 128 * 2 ^ (7 * i)
unfolding or_group
or_group-add v b i hv hb =
    rw low_seven (rw (mod-eq_of_lt hb) (bit_or_disjoint (7 * i) v (b % 128) hv))

group_fits : (x p acc : ℕ) → x < 128 → acc < p → acc + x * p < p * 128
group_fits x p acc hx ha = grind arith

-- The lowest group of `v` and the rest, both shifted by `i` groups.
split_group : (v i : ℕ) → v * 2 ^ (7 * i) ≡ v % 128 * 2 ^ (7 * i) + v / 128 * 2 ^ (7 * (i + 1))
split_group v i = omega (
  arith,
  ap (λ (t : ℕ). t * 2 ^ (7 * i)) (div-add-mod v 128),
  ap (λ (t : ℕ). v / 128 * t) (shift_seven i),
)

-- What a reading loop has put together, and what it still has to read.
pub record Progress (acc v i : ℕ) : Type 0 where
  pub below : acc < 2 ^ (7 * i)
  pub fits : acc + v * 2 ^ (7 * i) < 2 ^ 32

Progress-next :
    {acc v i : ℕ} → Progress acc v i → Progress (acc + v % 128 * 2 ^ (7 * i)) (v / 128) (i + 1)
Progress-next {acc} {v} {i} p = record {
  below = omega (arith, shift_seven i, group_fits (v % 128) (2 ^ (7 * i)) acc);
  fits = omega (arith, split_group v i, p.fits);
}

pub Progress-start : (v : ℕ) → v < 2 ^ 32 → Progress 0 v 0
Progress-start v h = record { below = omega arith; fits = omega arith }

module _ {acc v i : ℕ} (p : Progress acc v i) where
  or_group_last : v < 128 → or_group acc v i ≡ acc + v * 2 ^ (7 * i)
  or_group_last h =
      let e : v % 128 ≡ v = omega arith in
      rw e at (or_group-add acc v i p.below (rw e (omega (arith, p.fits))))

  or_group_inner : or_group acc (v % 128 + 128) i ≡ acc + v % 128 * 2 ^ (7 * i)
  or_group_inner =
      let e : (v % 128 + 128) % 128 ≡ v % 128 = omega arith in
      rw e at
        (or_group-add acc (v % 128 + 128) i p.below (rw e (omega (arith, p.fits, split_group v i))))

last_group : (v : ℕ) → v < 128 → is_last v ≡ true
last_group v h = ground (arith, top_bit v)

marked_group : (v : ℕ) → is_last (v % 128 + 128) ≡ false
marked_group v = ground (arith, top_bit (v % 128 + 128))

groups_small : (k v : ℕ) → v < 128 → groups k v ≡ v ∷ []
unfolding groups
groups_small zero v h = refl
groups_small (suc k) v h = rw (lt→ltb v 128 h)

groups_large : (k v : ℕ) → 128 ≤ v → groups (suc k) v ≡ (v % 128 + 128) ∷ groups k (v / 128)
unfolding groups
groups_large k v h = ground arith

-- A loop that puts groups together: at a last group it answers by `done`, from the number of bytes
-- read, the value and the bytes; at a marked one it goes on. The package has three such loops.
module _ {ℓ} {A : Type ℓ} (loop : ℕ → ℕ → ℕ → List ℕ → List ℕ → A)
    (done : ℕ → ℕ → List ℕ → List ℕ → A)
    (at_last : (left i acc b : ℕ) (seen rest : List ℕ)
      → is_last b ≡ true
      → loop (suc left) i acc seen (b ∷ rest)
        ≡ done (i + 1) (or_group acc b i) (seen ++ (b ∷ [])) rest)
    (at_marked : (left i acc b : ℕ) (seen rest : List ℕ)
      → is_last b ≡ false
      → loop (suc left) i acc seen (b ∷ rest)
        ≡ loop left (i + 1) (or_group acc b i) (seen ++ (b ∷ [])) rest) where
  loop_small :
      (k i acc v : ℕ) (seen rest : List ℕ)
      → v < 128
      → Progress acc v i
      → loop (suc k) i acc seen (groups k v ++ rest)
        ≡ done (i + length (groups k v)) (acc + v * 2 ^ (7 * i)) (seen ++ groups k v) rest
  loop_small k i acc v seen rest h p =
      rw (groups_small k v h)
        (rw (or_group_last p h) at (at_last k i acc v seen rest (last_group v h)))

  pub loop-groups :
      (k i acc v : ℕ) (seen rest : List ℕ)
      → v < 128 ^ suc k
      → Progress acc v i
      → loop (suc k) i acc seen (groups k v ++ rest)
        ≡ done (i + length (groups k v)) (acc + v * 2 ^ (7 * i)) (seen ++ groups k v) rest
  loop-groups zero i acc v seen rest h p = loop_small zero i acc v seen rest (omega arith) p
  loop-groups (suc k) i acc v seen rest h p = elim (dec_lt v 128) [
    | yes small ↦ loop_small (suc k) i acc v seen rest small p
    | no large ↦ rw (groups_large k v (omega arith)) (
        at_marked (suc k) i acc (v % 128 + 128) seen (groups k (v / 128) ++ rest) (marked_group v)
        ∙ rw (or_group_inner p) (
            loop-groups k (i + 1) _ (v / 128) (seen ++ ((v % 128 + 128) ∷ [])) rest (omega arith)
              (Progress-next p)
            ∙ done_eq))
  ]
    where
      group : List ℕ
      group = groups k (v / 128)

      done_eq :
          done
            (i + 1 + length group)
            (acc + v % 128 * 2 ^ (7 * i) + v / 128 * 2 ^ (7 * (i + 1)))
            ((seen ++ ((v % 128 + 128) ∷ [])) ++ group)
            rest
          ≡ done
              (i + suc (length group))
              (acc + v * 2 ^ (7 * i))
              (seen ++ ((v % 128 + 128) ∷ group))
              rest
      done_eq = cc (value, count, append_assoc seen ((v % 128 + 128) ∷ []) group)
        where
          value : acc + v % 128 * 2 ^ (7 * i) + v / 128 * 2 ^ (7 * (i + 1)) ≡ acc + v * 2 ^ (7 * i)
          value = omega (arith, split_group v i)

          count : i + 1 + length group ≡ i + suc (length group)
          count = omega arith
