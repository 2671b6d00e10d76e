-- ===== src/Config/Tests.antt =====
-- fantoch/src/config.rs: sample configurations, and the theorems on quorum sizes at them.
use fantoch.Prelude.{◌+◌, ◌-◌, ◌*◌, ◌/◌, ◌≤◌, ◌<◌, ◌≡◌, refl, true, ◌↔◌, done, arith}
use fantoch.Config.{
  Config, new, default_config, fpaxos_quorum_size, atlas_quorum_sizes, epaxos_quorum_sizes,
  caesar_quorum_sizes, tempo_quorum_sizes,
}
use fantoch.Config.Quorums.{
  new_iff, fpaxos_quorums_meet, atlas_quorums_meet, epaxos_quorums_meet, caesar_quorums_meet,
  tempo_threshold_meets, tempo_threshold_formula,
}

abbrev five : Config
five = default_config 5 2

abbrev tiny : Config
tiny = record five { tempo_tiny_quorums = true }

abbrev four : Config
four = default_config 4 1

new_iff_example : (new 5 2 ≡ done five) ↔ ((2 ≤ 5 / 2) × (five ≡ default_config 5 2))
new_iff_example = new_iff 5 2 five

fpaxos_quorums_meet_example :
    (5 < (5 - 2) + fpaxos_quorum_size five) × (fpaxos_quorum_size five ≤ 5)
fpaxos_quorums_meet_example = fpaxos_quorums_meet five (omega arith) (omega arith)

atlas_quorums_meet_example :
    ((atlas_quorum_sizes five).0 ≤ 5)
    × ((atlas_quorum_sizes five).0 + (5 - 2) ≡ 5 + 5 / 2)
    × (5 < (5 - 2) + (atlas_quorum_sizes five).1)
atlas_quorums_meet_example = atlas_quorums_meet five (omega arith) (omega arith)

epaxos_quorums_meet_example :
    ((epaxos_quorum_sizes five).0 ≤ 5)
    × ((epaxos_quorum_sizes five).1 ≤ 5)
    × (5 < (epaxos_quorum_sizes five).0 + (epaxos_quorum_sizes five).1)
epaxos_quorums_meet_example = epaxos_quorums_meet five (omega arith) (omega arith)

caesar_quorums_meet_example :
    (2 * 5 < 2 * (caesar_quorum_sizes five).0 + (caesar_quorum_sizes five).1)
    × ((caesar_quorum_sizes five).0 ≤ 5)
caesar_quorums_meet_example = caesar_quorums_meet five (omega arith) (omega arith)

tempo_threshold_meets_example :
    (5 < (tempo_quorum_sizes tiny).2 + ((tempo_quorum_sizes tiny).0 - 2 + 1))
    × ((tempo_quorum_sizes tiny).2 ≤ 5)
    × ((tempo_quorum_sizes tiny).0 ≤ 5)
tempo_threshold_meets_example = tempo_threshold_meets tiny (omega arith) (omega arith)

-- With 4 processes and no tiny quorums the threshold is 3, and the documented formula gives 2.
tempo_four : tempo_quorum_sizes four ≡ (3, 2, 3)
unfolding tempo_quorum_sizes
tempo_four = refl

tempo_threshold_formula_example :
    (tempo_quorum_sizes four).2 ≡ 4 - (tempo_quorum_sizes four).0 + 1 + 1
tempo_threshold_formula_example = tempo_threshold_formula four (omega arith) (omega arith)
