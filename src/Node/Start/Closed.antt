-- ===== src/Node/Start/Closed.antt =====
-- What Close leaves behind.
use ccaa.Base.{nat_eq, string_eq, str_append, false, ◌≡◌, Option, none, some}
use ccaa.Task.{Task}
use ccaa.Core.Interface.{Core, Error}
use ccaa.Node.Controller.{Controller}

-- No loop of the task starts a new round.
abbrev pub IsStopped : Option Task → Type 0
IsStopped none = Unit
IsStopped (some t) = t.running ≡ false

-- The four tasks of a controller.
abbrev pub AreStopped : {S X B R : Type 0} → Controller S X B R → Type 0
AreStopped c =
    (c.node_info_monitor_periodic.running ≡ false)
    × (c.user_report_periodic.running ≡ false)
    × IsStopped c.renew_cert_periodic
    × IsStopped c.dynamic_speed_limit_periodic

-- The error that a server's error becomes.
abbrev pub wrapped : Error → Error
wrapped e = elim e [ none ↦ none | some text ↦ some (str_append "del node error: " text) ]
