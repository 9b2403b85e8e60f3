-- ===== src/Telegram/Tests.antt =====
-- The theorems at concrete inputs.
use proxygo.Base.{◌^◌, ◌≤◌, ◌<◌, ◌≡◌, refl, arith, List, [], ◌∷◌, All, panics, ok, ◌⊎◌, ◌/◌}
use proxygo.Base.Int.{pos}
use proxygo.Base.Text.{codes}
use proxygo.Telegram.Words.{bare, in_singles, tokenize, tokenize-line}
use proxygo.Telegram.Html.{IsNoTag, escape_html, read_text, escape_html-text}
use proxygo.Telegram.Sizes.{
  IsReadable, bytes, scale_loop, scale, human_bytes, human_bytes_outcome, short_uptime, days_hours,
}
use proxygo.Telegram.Figures.{Traffic}
use proxygo.Telegram.Alerts.{Queue, turns, notify_all, turns-notify_all}

tokenize-line_example :
    tokenize (codes "/ban 1.2.3.4 'too fast'")
    ≡ (codes "/ban" ∷ codes "1.2.3.4" ∷ codes "too fast" ∷ [])
tokenize-line_example =
    tokenize-line
      (bare (codes "/ban") ∷ bare (codes "1.2.3.4") ∷ in_singles (codes "too fast") ∷ [])
      (ground arith)

escape_html-text_example :
    All IsNoTag (escape_html (codes "a<b"))
    × (read_text 0 (escape_html (codes "a<b")) ≡ codes "a<b")
escape_html-text_example = escape_html-text (codes "a<b")

human_bytes_outcome_example :
    ((5000 < 1024) × (human_bytes (pos 5000) ≡ ok (bytes (pos 5000)))
      ⊎ (IsReadable 5000 (human_bytes (pos 5000))
          ⊎ (1024 ^ 5 ≤ 5000) × (human_bytes (pos 5000) ≡ panics)))
    × (scale_loop 6000 (5000 / 1024) 1024 0 ≡ scale 5000)
human_bytes_outcome_example = human_bytes_outcome 5000 6000 (omega arith)

uptime_run : short_uptime 90061 ≡ days_hours 1 1
unfolding short_uptime
uptime_run = refl

abbrev traffic : List Traffic
traffic =
    record { name = codes "a"; tcp_in = 1; tcp_out = 2; udp_bytes = 3 }
    ∷ record { name = codes "b"; tcp_in = 10; tcp_out = 0; udp_bytes = 0 }
    ∷ []

abbrev queue : Queue
queue = record { waiting = codes "x" ∷ []; sent = []; drops = 0 }

turns-notify_all_example :
    turns (pos 1 ∷ pos 2 ∷ []) 2 (notify_all (codes "y" ∷ []) queue) ≡ record {
      waiting = [];
      sent = (pos 1, codes "x") ∷ (pos 2, codes "x") ∷ (pos 1, codes "y") ∷ (pos 2, codes "y") ∷ [];
      drops = 0;
    }
turns-notify_all_example =
    turns-notify_all (pos 1 ∷ pos 2 ∷ []) (codes "y" ∷ []) queue (omega arith)
