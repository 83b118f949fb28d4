-- ===== src/Settings/Laws.antt =====
-- The template that windowsJSONConfigFromDefaults writes, read back by applyWindowsJSONConfig, both
-- of cmd/splitter/config_windows.go.
use gov_pass.Prelude.{◌^◌, ◌<◌, ◌≡◌, refl, ◌⊎◌, inl, inr, false, none, some, is_empty, ap, ◌∙◌}
use gov_pass.Prelude.Int.{ℤ, pos, negsuc}
use gov_pass.Flow.{bytes_eq}
use gov_pass.Engine.Config.{Config, SplitMode, split_mode_immediate, split_mode_tls_hello}
use gov_pass.Settings.{
  Library, RunConfig, ApplyError, immediate_text, tls_hello_text, put, after, parse_split_mode,
  put_parsed, apply_engine, set_filter, apply_win_divert, apply_engine_part, apply_win_divert_part,
  apply_json, after_engine, mode_text, json_from_defaults,
}

-- A time.Duration.
unfoldable pub IsInt64 : ℤ → Type 0
IsInt64 (pos n) = n < 2 ^ 63
IsInt64 (negsuc n) = n < 2 ^ 63

-- What the documents of `strings` and `time` say: lower-case words stay as they are and are not
-- blank, and a duration's text is not blank and is read as that duration.
pub record Documented (lib : Library) : Type 0 where
  pub immediate_lower : lib.to_lower immediate_text ≡ immediate_text
  pub tls_hello_lower : lib.to_lower tls_hello_text ≡ tls_hello_text
  pub immediate_word : is_empty (lib.trim_space immediate_text) ≡ false
  pub tls_hello_word : is_empty (lib.trim_space tls_hello_text) ≡ false
  pub duration_word : (d : ℤ) → IsInt64 d → is_empty (lib.trim_space (lib.duration_text d)) ≡ false
  pub duration_read : (d : ℤ) → IsInt64 d → lib.parse_duration (lib.duration_text d) ≡ some d

-- The durations of the settings are such.
pub record HasDurations (cfg : Config) : Type 0 where
  pub collect_timeout : IsInt64 cfg.collect_timeout
  pub flow_idle_timeout : IsInt64 cfg.flow_idle_timeout
  pub gc_interval : IsInt64 cfg.gc_interval
  pub shutdown_fail_open_timeout : IsInt64 cfg.shutdown_fail_open_timeout
  pub adapter_flush_timeout : IsInt64 cfg.adapter_flush_timeout

module _ (lib : Library) (doc : Documented lib) where
  -- A mode with a name is read back from its name.
  put_parsed-mode :
      {S : Type 0} (m : SplitMode) (e : ApplyError) (write : S → SplitMode → S) (s : S)
      → (m ≡ split_mode_immediate) ⊎ (m ≡ split_mode_tls_hello)
      → put_parsed lib (some (mode_text m)) (parse_split_mode lib) e write s ≡ (write s m, none)
  unfolding put_parsed parse_split_mode bytes_eq mode_text
  put_parsed-mode m e write s (inl h) = rw h (rw doc.immediate_word (rw doc.immediate_lower refl))
  put_parsed-mode m e write s (inr h) = rw h (rw doc.tls_hello_word (rw doc.tls_hello_lower refl))

  -- A duration is read back from its text.
  put_parsed-duration :
      {S : Type 0} (d : ℤ) (e : ApplyError) (write : S → ℤ → S) (s : S)
      → IsInt64 d
      → put_parsed lib (some (lib.duration_text d)) lib.parse_duration e write s ≡ (write s d, none)
  unfolding put_parsed
  put_parsed-duration d e write s h = rw (doc.duration_word d h) (rw (doc.duration_read d h) refl)

  apply_engine-defaults :
      (cfg dst : Config)
      → (cfg.split_mode ≡ split_mode_immediate) ⊎ (cfg.split_mode ≡ split_mode_tls_hello)
      → HasDurations cfg
      → (w : RunConfig)
      → apply_engine_part lib dst (json_from_defaults lib cfg w).engine
        ≡ (record cfg { worker_queue_size = dst.worker_queue_size }, none)
  unfolding apply_engine_part apply_engine json_from_defaults put after
  apply_engine-defaults cfg dst m v w = rw (put_parsed-mode cfg.split_mode _ _ _ m) (
      rw (put_parsed-duration cfg.collect_timeout _ _ _ v.collect_timeout) (
        rw (put_parsed-duration cfg.flow_idle_timeout _ _ _ v.flow_idle_timeout) (
          rw (put_parsed-duration cfg.gc_interval _ _ _ v.gc_interval) (
            rw
              (put_parsed-duration cfg.shutdown_fail_open_timeout _ _ _
                v.shutdown_fail_open_timeout)
              (put_parsed-duration cfg.adapter_flush_timeout _ _ _ v.adapter_flush_timeout)))))

  apply_win_divert-defaults :
      (cfg : Config) (wc run : RunConfig)
      → is_empty (lib.trim_space wc.filter) ≡ false
      → apply_win_divert_part lib run (json_from_defaults lib cfg wc).win_divert ≡ (
        record run {
          filter = wc.filter;
          queue_len = wc.queue_len;
          queue_time = wc.queue_time;
          queue_size = wc.queue_size;
          auto_install_driver = wc.auto_install_driver;
          auto_download_files = wc.auto_download_files;
        },
        none,
      )
  unfolding apply_win_divert_part apply_win_divert set_filter put after json_from_defaults
  apply_win_divert-defaults cfg wc run f = rw f refl

  -- The template of the settings `cfg` and `wc`, applied to any settings `dst` and `run`, gives
  -- back `cfg` but for the queue size, which the file does not have, and what `wc` says of the
  -- filter, the queue and the driver; provided that the mode has a name, the filter is not blank,
  -- the durations are of 64 bits, and Go's library does what its documents say.
  pub apply-defaults :
      (cfg dst : Config) (wc run : RunConfig)
      → (cfg.split_mode ≡ split_mode_immediate) ⊎ (cfg.split_mode ≡ split_mode_tls_hello)
      → HasDurations cfg
      → is_empty (lib.trim_space wc.filter) ≡ false
      → apply_json lib dst run (json_from_defaults lib cfg wc) ≡ (
        record cfg { worker_queue_size = dst.worker_queue_size },
        record run {
          filter = wc.filter;
          queue_len = wc.queue_len;
          queue_time = wc.queue_time;
          queue_size = wc.queue_size;
          auto_install_driver = wc.auto_install_driver;
          auto_download_files = wc.auto_download_files;
        },
        none,
      )
  unfolding apply_json after_engine
  apply-defaults cfg dst wc run m v f =
      ap
        (λ e.
          after_engine run e
            (apply_win_divert_part lib run (json_from_defaults lib cfg wc).win_divert))
        (apply_engine-defaults cfg dst m v wc)
      ∙ ap (after_engine run (record cfg { worker_queue_size = dst.worker_queue_size }, none))
          (apply_win_divert-defaults cfg wc run f)
