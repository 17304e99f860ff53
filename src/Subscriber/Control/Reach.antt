-- ===== src/Subscriber/Control/Reach.antt =====
-- The states that the thread `control` of src/subscriber/subscriber.cpp reaches.
use zip_log_ae.Base.{◌⊎◌, Bool, Option, none, some, List, All}
use zip_log_ae.Subscriber.Log.{Log}
use zip_log_ae.Subscriber.Control.{Control, Event, storage_info, order_bye, storage_bye}
use zip_log_ae.Subscriber.Control.Taken.{ControlInv}
use zip_log_ae.Subscriber.Control.Connect.{IsIntro}
use zip_log_ae.Subscriber.Control.Ended.{Ended}

abbrev pub IsEvent : Event → Type 0
IsEvent (storage_info intros) = All IsIntro intros
IsEvent order_bye = Unit
IsEvent (storage_bye sid rid) = Unit

-- The state, if there is one, has ended, or has the invariant.
abbrev pub Holds : Option Control → Type 0
Holds none = Unit
Holds (some c) = Ended c ⊎ ControlInv c

abbrev pub IsRound : Bool × List Event → Type 0
IsRound r = All IsEvent r.1
