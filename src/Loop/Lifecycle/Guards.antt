-- ===== src/Loop/Lifecycle/Guards.antt =====
-- What the waits of the main thread make sure of.
use rt_csp.Base.{◌+◌, ◌≡◌}
use rt_csp.Loop.Lifecycle.{
  Place, Phase, absent, gone, starting, creating, awaiting, looping, notifying, draining, stopping,
}
use rt_csp.Loop.Lifecycle.Counted.{is_counted, is_gone}

-- What is known of a worker from where the main thread stands.
abbrev pub Guard : Place → Phase → Type 0
Guard (starting k) p = p ≡ absent
Guard (creating i) p = Unit {0}
Guard awaiting p = Unit {0}
Guard looping p = is_counted p + is_gone p ≡ 1
Guard (notifying i) p = is_counted p + is_gone p ≡ 1
Guard draining p = is_counted p + is_gone p ≡ 1
Guard (stopping k) p = p ≡ gone
