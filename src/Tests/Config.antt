-- ===== src/Tests/Config.antt =====
-- Runs of crates/core/src/config.rs, and its properties at one input.
use y4p.Prelude.{◌≡◌, refl, false, drop, take}
use y4p.Core.Text.{Text, codes, trim, list_eq, contains, starts_with}
use y4p.Core.Config.{parse}
use y4p.Core.Config.Lines.{IsHistory, parse-IsHistory}

abbrev sample : Text
sample = codes "[general] # x\nmax_history = 12 # y\n[mime]\r\ndrop_rtf=false"

sample_parsed :
    parse sample
    ≡ record { general = record { max_history = 12 }; mime = record { drop_rtf = false } }
unfolding parse trim list_eq contains starts_with drop take
sample_parsed = refl

parse-IsHistory_example : IsHistory (parse sample)
parse-IsHistory_example = parse-IsHistory sample
