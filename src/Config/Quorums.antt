-- ===== src/Config/Quorums.antt =====
-- fantoch/src/config.rs: what the quorum sizes promise the protocols that use them.
use fantoch.Prelude.{
  ℕ, ◌+◌, ◌-◌, ◌*◌, ◌/◌, ◌%◌, ◌≤◌, ◌<◌, ◌≡◌, ◌↔◌, done, word, arith, if◌then◌else◌, nat_beq,
}
use fantoch.Config.{
  Config, new, default_config, fpaxos_quorum_size, atlas_quorum_sizes, epaxos_quorum_sizes,
  caesar_quorum_sizes, tempo_quorum_sizes,
}

-- The configurations that `Config::new` accepts and later setters keep: at most a minority fails,
-- and the sizes stay far from the word size.
pub record IsUsable (c : Config) : Type 0 where
  pub minority : c.f ≤ c.n / 2
  pub small : 4 * c.n < word

-- `Config::new` returns exactly when `f` is at most a minority, and then keeps `n` and `f`.
pub new_iff : (n f : ℕ) (c : Config) → (new n f ≡ done c) ↔ ((f ≤ n / 2) × (c ≡ default_config n f))
unfolding new
new_iff n f c = (λ h. ground arith, λ h. ground arith)

-- Flexible Paxos: a set of `n - f` promises and one of `f + 1` accepts share a process, and both
-- are sets of at most `n` processes.
pub fpaxos_quorums_meet :
    (c : Config)
    → IsUsable c
    → 0 < c.n
    → (c.n < (c.n - c.f) + fpaxos_quorum_size c) × (fpaxos_quorum_size c ≤ c.n)
unfolding fpaxos_quorum_size
fpaxos_quorums_meet c u h = omega arith

-- Atlas: the fast quorum exists, it meets the set of processes that survive `f` failures in
-- exactly a minority, and a write quorum meets every such set.
pub atlas_quorums_meet :
    (c : Config)
    → IsUsable c
    → 0 < c.n
    → ((atlas_quorum_sizes c).0 ≤ c.n)
      × ((atlas_quorum_sizes c).0 + (c.n - c.f) ≡ c.n + c.n / 2)
      × (c.n < (c.n - c.f) + (atlas_quorum_sizes c).1)
unfolding atlas_quorum_sizes
atlas_quorums_meet c u h = omega arith

-- EPaxos: both quorums exist, and a fast and a write quorum meet once there are two processes.
pub epaxos_quorums_meet :
    (c : Config)
    → IsUsable c
    → 2 ≤ c.n
    → ((epaxos_quorum_sizes c).0 ≤ c.n)
      × ((epaxos_quorum_sizes c).1 ≤ c.n)
      × (c.n < (epaxos_quorum_sizes c).0 + (epaxos_quorum_sizes c).1)
unfolding epaxos_quorum_sizes
epaxos_quorums_meet c u h = omega arith

-- Caesar: two fast quorums and a write quorum have a process in common, and the fast quorum
-- exists.
pub caesar_quorums_meet :
    (c : Config)
    → IsUsable c
    → 0 < c.n
    → (2 * c.n < 2 * (caesar_quorum_sizes c).0 + (caesar_quorum_sizes c).1)
      × ((caesar_quorum_sizes c).0 ≤ c.n)
unfolding caesar_quorum_sizes
caesar_quorums_meet c u h = omega arith

-- Tempo, with or without tiny quorums: the stability threshold together with the least number of
-- processes that compute a clock, fast quorum size less `f`, plus 1, is more than `n`, and the
-- threshold is one that `n` processes can reach.
pub tempo_threshold_meets :
    (c : Config)
    → IsUsable c
    → 0 < c.n
    → (c.n < (tempo_quorum_sizes c).2 + ((tempo_quorum_sizes c).0 - c.f + 1))
      × ((tempo_quorum_sizes c).2 ≤ c.n)
      × ((tempo_quorum_sizes c).0 ≤ c.n)
unfolding tempo_quorum_sizes
tempo_threshold_meets c u h = ground arith

-- The documented formula `n - fast_quorum_size + f` is the threshold with tiny quorums or an odd
-- `n`; without tiny quorums and with an even `n` the code's threshold is one more.
pub tempo_threshold_formula :
    (c : Config)
    → IsUsable c
    → 0 < c.n
    → (tempo_quorum_sizes c).2
      ≡ c.n
        - (tempo_quorum_sizes c).0
        + c.f
        + (if c.tempo_tiny_quorums then 0 else if nat_beq (c.n % 2) 0 then 1 else 0)
unfolding tempo_quorum_sizes
tempo_threshold_formula c u h = ground arith
