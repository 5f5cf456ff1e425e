-- ===== src/Strategies/HedgeVolume/Progress.antt =====
-- src/strategies/hedge_volume.py: the traded volumes and the report on them.
use omni_trade.Prelude.{ℕ, String, Bool, List, [], ◌∷◌, map, ◌==◌, if◌then◌else◌}
use omni_trade.Exec.{Exec, returned, gets, ◌>>◌}
use omni_trade.Float.{Float, F, nought}
use omni_trade.Strategies.HedgeVolume.{
  VolumeTarget, Strategy, get_completion_rate, is_completed, get_remaining_volume,
  check_daily_reset,
}

module _ ⦃fl : Float⦄ where
  unfoldable pub add_volume : String → F → List VolumeTarget → List VolumeTarget
  add_volume symbol volume [] = []
  add_volume symbol volume (t ∷ ts) =
      (if t.symbol == symbol
        then record t { current_volume = fl.add t.current_volume volume }
        else t)
      ∷ add_volume symbol volume ts

  unfoldable pub update_volume : String → F → Exec Strategy (Unit {0})
  unfolding add_volume
  update_volume symbol volume st =
      (returned tt, record st { targets = add_volume symbol volume st.targets })

  -- A line of the report, and the report.
  pub record Line : Type 0 where
    pub target : VolumeTarget
    pub remaining_volume : F
    pub completion_rate : F
    pub is_done : Bool

  pub record ProgressReport : Type 0 where
    pub targets : List Line
    pub total_target : F
    pub total_completed : F
    pub overall_completion : F

  abbrev pub line : VolumeTarget → Line
  line t = record {
    target = t;
    remaining_volume = get_remaining_volume t;
    completion_rate = get_completion_rate t;
    is_done = is_completed t;
  }

  unfoldable pub total_of : (VolumeTarget → F) → F → List VolumeTarget → F
  total_of f acc [] = acc
  total_of f acc (t ∷ ts) = total_of f (fl.add acc (f t)) ts

  unfoldable pub report_of : List VolumeTarget → ProgressReport
  unfolding total_of get_remaining_volume get_completion_rate is_completed
  report_of ts =
      let target = total_of (λ t. t.daily_target_volume) nought ts in
      let completed = total_of (λ t. t.current_volume) nought ts in
      record {
        targets = map line ts;
        total_target = target;
        total_completed = completed;
        overall_completion = if fl.lt nought target then fl.div completed target else nought;
      }

  unfoldable pub get_progress_report : ℕ → Exec Strategy ProgressReport
  unfolding check_daily_reset report_of
  get_progress_report today = do check_daily_reset today; gets (λ st. report_of st.targets)
