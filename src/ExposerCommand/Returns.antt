-- ===== src/ExposerCommand/Returns.antt =====
-- When `Run` of the exposer returns.
use openshift_acme.Common.{ℕ, ◌+◌, Bool, true, false, ◌≡◌, ◌≢◌}
use openshift_acme.ExposerCommand.Serving.{
  Serving, opening, serving, closed, Closing, watching, closing, finished, Main, reading, waiting,
  returned, Exposing, is_shut,
}

serving_left : Serving → ℕ
serving_left Serving.absent = 0
serving_left opening = 2
serving_left serving = 1
serving_left closed = 0

closing_left : Closing → ℕ
closing_left Closing.absent = 0
closing_left watching = 2
closing_left closing = 1
closing_left finished = 0

main_left : Main → ℕ
main_left reading = 6
main_left waiting = 1
main_left returned = 0

bit_left : Bool → ℕ
bit_left true = 0
bit_left false = 1

-- The steps that are left, at most.
left : Exposing → ℕ
left s =
    main_left s.main
    + serving_left s.server
    + closing_left s.closer
    + bit_left s.stop
    + bit_left s.ctx_done

abbrev Inv : Exposing → Type 0
Inv s =
    (s.main ≡ reading → s.closer ≡ Closing.absent)
    × (s.main ≡ waiting → s.server ≢ Serving.absent)
    × (s.main ≡ waiting → s.closer ≢ Closing.absent)
    × (s.main ≡ returned → s.server ≡ closed)
    × (s.main ≡ returned → s.closer ≡ finished)
    × (is_shut s.closer ≡ true → s.ctx_done ≡ true)
    × (s.ctx_done ≡ true → s.stop ≡ true)
