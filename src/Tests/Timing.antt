-- ===== src/Tests/Timing.antt =====
-- A kubelet that answers at the last moment.
use my_learning_journey.Base.{◌*◌, inl, some, none, Option, arith, ok}
use my_learning_journey.Base.Int.{pos, ◌+ℤ◌, ◌≤ℤ◌, ◌<ℤ◌, int_laws}
use my_learning_journey.Golang.{Time, Context, background, with_timeout, millisecond, second}
use my_learning_journey.Float.{scrape_timeout_of}
use my_learning_journey.Sources.Stats.{KubeletInterface}
use my_learning_journey.Sources.Summary.{new_summary_metrics_source}
use my_learning_journey.Sources.SourceManager.{delay_ms, scrape_context, scrape_with_metrics}
use my_learning_journey.Server.InTime.{KeepsDeadlines, IsReadSoon, goroutine-InTime}
use my_learning_journey.Tests.{amounts, packages, at, info, summary}

abbrev deadline_or : Option Time → Time → Time
deadline_or none now = now
deadline_or (some d) now = d

abbrev late_kubelet : KubeletInterface
late_kubelet = record {
  get_summary = λ ctx address now. (ok summary, deadline_or ctx.deadline now);
}

late_kubelet-KeepsDeadlines : KeepsDeadlines late_kubelet
late_kubelet-KeepsDeadlines ctx address now deadline e = inl (rw (e, deadline_or) (omega arith))

abbrev base_ctx : Context
base_ctx = with_timeout background (at 10) (pos (60 * second))

packages-IsReadSoon : IsReadSoon packages
packages-IsReadSoon t =
    let soon : t +ℤ pos 1000 ≤ℤ t +ℤ pos (100 * millisecond) = omega int_laws in soon

-- Of three sources, with a sleep of 23 ms.
goroutine-InTime_example :
    ((scrape_with_metrics packages
        (scrape_context base_ctx
          (scrape_timeout_of (pos (60 * second)))
          (at 10)
          (pos (23 * millisecond)))
        (new_summary_metrics_source amounts packages late_kubelet info)
        (at 10 +ℤ pos (23 * millisecond))).finished
      ≤ℤ at 10 +ℤ scrape_timeout_of (pos (60 * second)))
    × (at 10 +ℤ scrape_timeout_of (pos (60 * second)) <ℤ at 10 +ℤ pos (60 * second))
unfolding delay_ms
goroutine-InTime_example =
    goroutine-InTime amounts packages late_kubelet info base_ctx (at 10) 3 23 (60 * second)
      late_kubelet-KeepsDeadlines packages-IsReadSoon (omega arith) (omega arith) (omega arith)
