-- ===== src/Examples/Concurrency.antt =====
-- The claims about guard.rs and lease.rs on short runs.
use stplr.Base.{ℕ, ◌<◌, ◌≡◌, refl, ◌⊎◌, some, [], ◌∷◌, arith, nat_Eq}
use stplr.Text.{text_Eq, codes}
use stplr.Lease.{Lease}
use stplr.Lease.Election.{Request, serve_all, serve_all_fencing}
use stplr.Guard.{new, try_enter, leave_locked, freeze, unfreeze_locked, bump, drained}
use stplr.Guard.System.{
  System, enter, freeze_step, unfreeze, bump_step, Steps, here, next, IsCounted, tokens_of,
}
use stplr.Guard.Safety.{stay, then_, Steps-IsCounted, drained_excludes}
use stplr.Guard.Wakeup.{thaw_signals}

abbrev start : System
start = record { gates = new; tokens = []; pending = 0 }

start-IsCounted : IsCounted start
unfolding new stplr.Dict.get
start-IsCounted = record { counts = λ b. refl }

abbrev busy : System
busy = record start { gates = record new { in_flight = (3, 1) ∷ [] }; tokens = 3 ∷ [] }

entered : Steps start busy
unfolding try_enter new stplr.Dict.insert stplr.Dict.get
entered = next here (enter start 3 busy.gates refl)

Steps-IsCounted_example : IsCounted busy
Steps-IsCounted_example = Steps-IsCounted entered start-IsCounted

abbrev cold : System
cold = record start { gates = freeze new (3 ∷ []) }

abbrev thawed : System
thawed = record cold { gates = unfreeze_locked cold.gates (3 ∷ []); pending = 1 }

abbrev woken : System
woken = record thawed { gates = bump thawed.gates; pending = 0 }

cold-IsCounted : IsCounted cold
cold-IsCounted = Steps-IsCounted (next here (freeze_step start (3 ∷ []))) start-IsCounted

drained_excludes_example :
    tokens_of (record cold { gates = freeze cold.gates (4 ∷ []) }).tokens 3 ≡ 0
unfolding freeze new drained stplr.Dict.get
drained_excludes_example =
    drained_excludes (3 ∷ []) 3 cold-IsCounted refl refl refl
      (then_ stay (freeze_step cold (4 ∷ [])) refl)

thaw_signals_example : cold.gates.sent < woken.gates.sent
unfolding freeze unfreeze_locked bump new
thaw_signals_example =
    thaw_signals 3 (next (next here (unfreeze cold (3 ∷ []))) (bump_step thawed 0 refl)) refl refl
      refl

abbrev left : System
left = record busy { gates = leave_locked busy.gates 3; tokens = []; pending = 1 }

abbrev held : Lease
held = record { holder = codes "a"; expires_ms = 100; token = 4 }

abbrev ask : ℕ → Request
ask now = record { asker = codes "b"; ttl_ms = 30; now_ms = now }

serve_all_fencing_example :
    (l' : Lease) × (serve_all (some held) (ask 50 ∷ ask 100 ∷ []) ≡ some l')
    × ((4 < l'.token) ⊎ ((l'.token ≡ 4) × (l'.holder ≡ codes "a")))
serve_all_fencing_example = serve_all_fencing held (ask 50 ∷ ask 100 ∷ []) (omega arith)
