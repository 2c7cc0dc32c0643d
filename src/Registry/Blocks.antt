-- ===== src/Registry/Blocks.antt =====
-- registry/registry.go: the blocks of a flow (SLA, estimator, baseline, recovery, reconcile), an absent
-- one with its zero value. A float64 is its 64 bits.
use shortfall.Prelude.{
  ℕ, ◌^◌, ◌/◌, ◌%◌, Bool, not, ◌&&◌, ◌||◌, Option, none, some, List, [], ◌∷◌, Bytes, codes, ◌=?◌,
  ltb, ◌==◌, Result, ok, err, ◌>>=◌, ◌>>◌, fail_if, if◌then◌else◌,
}
use shortfall.Prelude.Int.{ℤ, pos, ltb_ℤ}
use shortfall.Prelude.Maps.{Map}
use shortfall.Biz.Money.{cut}
use shortfall.Engine.Realized.{member}
use shortfall.Registry.{Sla, Breach, Estimator, Baseline, Recovery, Reconcile}
use shortfall.Registry.Duration.{parse_iso_duration}
use shortfall.Registry.Docs.{
  SlaDoc, EstimatorDoc, RecoveryDoc, RegistryError, unknown_stage, bad_duration, bad_breach,
  bad_estimator, unknown_segment, bad_seasonality, bad_lookback, bad_model, not_finite,
  fraction_range, no_within, within_alone, no_source, bad_scheme,
}
use shortfall.Registry.Rules.{is_nil}
use shortfall.Registry.Trim.{trim_space}

-- `Breach(sd.OnBreach)`, one of the two
abbrev pub breach_of : Bytes → Result RegistryError Breach
breach_of b =
    if b =? codes "lost"
    then ok Breach.lost
    else if b =? codes "at_risk"
    then ok Breach.at_risk
    else err bad_breach

abbrev pub duration_or_error : Option ℕ → Result RegistryError ℤ
duration_or_error none = err bad_duration
duration_or_error (some d) = ok (pos d)

abbrev pub duration_of : Bytes → Result RegistryError ℤ
duration_of s = duration_or_error (parse_iso_duration s)

-- the loop over the SLAs, over the names of the stages
unfoldable pub build_sla : List Bytes → Map SlaDoc → Result RegistryError (Map Sla)
unfolding member parse_iso_duration ◌=?◌
build_sla stages [] = ok []
build_sla stages ((stage, sd) ∷ m) = do
  fail_if (not (member stage stages)) unknown_stage
  deadline ← duration_of sd.deadline
  on_breach ← breach_of sd.on_breach
  rest ← build_sla stages m
  ok ((stage, record { deadline = deadline; on_breach = on_breach }) ∷ rest)

unfoldable pub check_by_segment : List Bytes → Map ℤ → Result RegistryError (Unit {0})
unfolding member
check_by_segment segments [] = ok tt
check_by_segment segments ((seg, v) ∷ m) = do
  fail_if (not (member seg segments)) unknown_segment
  fail_if (not (ltb_ℤ (pos 0) v)) bad_estimator
  check_by_segment segments m

abbrev pub exponent_or : Option ℤ → ℤ
exponent_or none = pos 2
exponent_or (some e) = e

unfoldable pub build_estimator :
    List Bytes → Option EstimatorDoc → Result RegistryError (Option Estimator)
unfolding check_by_segment
build_estimator segments none = ok none
build_estimator segments (some d) = do
  fail_if (not (ltb_ℤ (pos 0) d.default_minor)) bad_estimator
  check_by_segment segments d.by_segment
  fail_if (ltb_ℤ (exponent_or d.exponent) (pos 0) || ltb_ℤ (pos 4) (exponent_or d.exponent))
      bad_estimator
  ok (
      some (record {
        default_minor = d.default_minor;
        exponent = exponent_or d.exponent;
        by_segment = d.by_segment;
      }))

abbrev no_baseline : Baseline
no_baseline = record { seasonality = []; lookback_weeks = pos 0; holidays = [] }

unfoldable pub build_baseline : Option Baseline → Result RegistryError Baseline
unfolding ◌=?◌
build_baseline none = ok no_baseline
build_baseline (some b) = do
  fail_if (not (b.seasonality =? codes "hour_of_week")) bad_seasonality
  fail_if (ltb_ℤ b.lookback_weeks (pos 1)) bad_lookback
  ok b

-- Of a float64 by its bits: neither NaN nor an infinity; negative, above one, and positive, where finite.
abbrev pub float_finite : ℕ → Bool
float_finite b = not (b / 2 ^ 52 % 2 ^ 11 == 2047)

abbrev pub float_negative : ℕ → Bool
float_negative b = ltb (2 ^ 63) b

abbrev pub float_above_one : ℕ → Bool
float_above_one b = ltb b (2 ^ 63) && ltb 0x3FF0_0000_0000_0000 b

abbrev pub float_positive : ℕ → Bool
float_positive b = ltb 0 b && ltb b (2 ^ 63)

-- `validateRecovery(rd)`
unfoldable pub validate_recovery : RecoveryDoc → Result RegistryError Recovery
unfolding parse_iso_duration ◌=?◌
validate_recovery rd = do
  fail_if (not (rd.model =? codes "usage_loss_curve")) bad_model
  fail_if (not (float_finite rd.recovered_fraction)) not_finite
  fail_if (float_negative rd.recovered_fraction || float_above_one rd.recovered_fraction)
      fraction_range
  fail_if (float_positive rd.recovered_fraction && is_nil rd.within) no_within
  fail_if (not (float_positive rd.recovered_fraction) && not (is_nil rd.within)) within_alone
  within ← if float_positive rd.recovered_fraction then duration_of rd.within else ok (pos 0)
  ok (record { model = rd.model; recovered_fraction = rd.recovered_fraction; within = within })

abbrev no_recovery : Recovery
no_recovery = record { model = []; recovered_fraction = 0; within = pos 0 }

unfoldable pub build_recovery : Option RecoveryDoc → Result RegistryError Recovery
unfolding validate_recovery
build_recovery none = ok no_recovery
build_recovery (some rd) = validate_recovery rd

-- `validateReconcile(rd, stageSet)`
abbrev pub known_scheme : Bytes × Bytes × Bool → Bool
known_scheme (scheme, _, found) = found && (scheme =? codes "sql" || scheme =? codes "stripe")

unfoldable pub validate_reconcile : List Bytes → Reconcile → Result RegistryError Reconcile
unfolding trim_space cut member ◌=?◌
validate_reconcile stages rd = do
  fail_if (is_nil (trim_space rd.source)) no_source
  fail_if (not (known_scheme (cut b':' (trim_space rd.source)))) bad_scheme
  fail_if (not (is_nil rd.stage) && not (member rd.stage stages)) unknown_stage
  ok (record { source = trim_space rd.source; stage = rd.stage })

abbrev no_reconcile : Reconcile
no_reconcile = record { source = []; stage = [] }

unfoldable pub build_reconcile : List Bytes → Option Reconcile → Result RegistryError Reconcile
unfolding validate_reconcile
build_reconcile stages none = ok no_reconcile
build_reconcile stages (some rd) = validate_reconcile stages rd
