-- ===== src/Worker/Sending.antt =====
-- What becomes of claimed tasks on their way to the executors (taskturbine-app/src/app.rs).
use mathlib.Core.List.{reverse, append_assoc, reverse-append, append-nil}
use taskturbine.Base.{
  ◌≤◌, ◌≡◌, refl, ap, sym, ◌∙◌, Bool, true, false, List, [], ◌∷◌, ◌++◌, suc, any, length, arith,
  rows_where, All,
}
use taskturbine.Models.{ClaimedTask}
use taskturbine.Sql.Session.{Env, StorageError, err}
use taskturbine.Worker.{claim_tasks}
use taskturbine.Worker.Loops.{
  Answer, accepted, full, closed, finished, but_last, last, send_loop, Claimer, Phase, claiming,
  disabled, ended, sending, turn_in, claim_timeout, claim_loop, Turn, claims, sends, no_receivers,
  stopping,
}

but_last-append :
    (t : ClaimedTask) (ts : List ClaimedTask) → but_last t ts ++ last t ts ∷ [] ≡ t ∷ ts
unfolding but_last last
but_last-append t [] = refl
but_last-append t (u ∷ us) = ap (◌∷◌ t) (but_last-append u us)

-- No task is lost or sent twice on the way to the channel, whatever the channel answers: the claimed
-- tasks are those left followed by those sent, the latest sent first. So the task that was due first
-- is sent last.
pub send_loop-append :
    (answers : List Answer) (ts : List ClaimedTask)
    → (send_loop answers ts).left ++ reverse (send_loop answers ts).sent ≡ ts
unfolding send_loop
send_loop-append answers [] = refl
send_loop-append [] (t ∷ ts) = append-nil (t ∷ ts)
send_loop-append (accepted ∷ answers) (t ∷ ts) =
    let rest = send_loop answers (but_last t ts) in
    ap (λ x. rest.left ++ x) (reverse-append (last t ts ∷ []) rest.sent)
    ∙ (sym (append_assoc rest.left (reverse rest.sent) (last t ts ∷ []))
        ∙ (ap (λ x. x ++ last t ts ∷ []) (send_loop-append answers (but_last t ts))
            ∙ but_last-append t ts))
send_loop-append (full ∷ answers) (t ∷ ts) = send_loop-append answers (t ∷ ts)
send_loop-append (closed ∷ answers) (t ∷ ts) = append-nil (t ∷ ts)

abbrev pub is_accepted : Answer → Bool
is_accepted accepted = true
is_accepted _ = false

abbrev pub is_closed : Answer → Bool
is_closed closed = true
is_closed _ = false

length-but_last : (t : ClaimedTask) (ts : List ClaimedTask) → length (but_last t ts) ≡ length ts
unfolding but_last
length-but_last t [] = refl
length-but_last t (u ∷ us) = ap suc (length-but_last u us)

-- The sending ends: if the channel is not closed, and takes a task as often as there are tasks,
-- however often it is full between, all tasks are sent.
pub send_loop_finishes :
    (answers : List Answer) (ts : List ClaimedTask)
    → any is_closed answers ≡ false
    → length ts ≤ length (rows_where is_accepted answers)
    → ((send_loop answers ts).status ≡ finished) × ((send_loop answers ts).left ≡ [])
unfolding send_loop
send_loop_finishes answers [] alive enough = (refl, refl)
send_loop_finishes [] (t ∷ ts) alive enough = absurd (omega arith)
send_loop_finishes (accepted ∷ answers) (t ∷ ts) alive enough =
    send_loop_finishes answers (but_last t ts) alive (omega (arith, length-but_last t ts))
send_loop_finishes (full ∷ answers) (t ∷ ts) alive enough =
    send_loop_finishes answers (t ∷ ts) alive enough
send_loop_finishes (closed ∷ answers) (t ∷ ts) alive enough = cc

-- A turn that is neither the end of the receivers nor a shutdown.
abbrev pub is_claim : Turn → Bool
is_claim no_receivers = false
is_claim stopping = false
is_claim (claims e answers) = true
is_claim (sends answers) = true

turn_stays :
    (q : Phase) (t : Turn) (c : Claimer) → q ≡ disabled → is_claim t ≡ true → turn_in q t c ≡ c
turn_stays disabled no_receivers c p h = cc
turn_stays disabled stopping c p h = cc
turn_stays disabled (claims e answers) c p h = refl
turn_stays disabled (sends answers) c p h = refl
turn_stays claiming t c p h = cc
turn_stays ended t c p h = cc
turn_stays (sending ts) t c p h = cc

disabled_stays :
    (turns : List Turn) (c : Claimer)
    → c.phase ≡ disabled
    → All (λ t. is_claim t ≡ true) turns
    → claim_loop turns c ≡ c
unfolding claim_loop
disabled_stays [] c p h = refl
disabled_stays (t ∷ turns) c p h =
    ap (claim_loop turns) (turn_stays c.phase t c p h.0) ∙ disabled_stays turns c p h.1

refused_turn :
    (q : Phase) (e : Env) (answers : List Answer) (c : Claimer) (x : StorageError)
    → q ≡ claiming
    → (claim_tasks c.worker (claim_timeout c.worker) e c.session).0 ≡ err x
    → turn_in q (claims e answers) c ≡ record c {
      worker = (claim_tasks c.worker (claim_timeout c.worker) e c.session).1;
      session = (claim_tasks c.worker (claim_timeout c.worker) e c.session).2;
      phase = disabled;
    }
refused_turn claiming e answers c x p failed = rw failed refl
refused_turn disabled e answers c x p failed = cc
refused_turn ended e answers c x p failed = cc
refused_turn (sending ts) e answers c x p failed = cc

-- One error ends the claiming. After a claim that the storage refused with an error, whatever the
-- turns that follow without a shutdown, nothing is claimed and nothing is sent any more: the session
-- and the sent tasks are as the refused claim left them.
pub claim_loop_stops :
    (c : Claimer) (e : Env) (answers : List Answer) (turns : List Turn) (x : StorageError)
    → c.phase ≡ claiming
    → (claim_tasks c.worker (claim_timeout c.worker) e c.session).0 ≡ err x
    → All (λ t. is_claim t ≡ true) turns
    → ((claim_loop (claims e answers ∷ turns) c).session
        ≡ (claim_tasks c.worker (claim_timeout c.worker) e c.session).2)
      × ((claim_loop (claims e answers ∷ turns) c).sent ≡ c.sent)
      × ((claim_loop (claims e answers ∷ turns) c).phase ≡ disabled)
unfolding claim_loop
claim_loop_stops c e answers turns x p failed h =
    let stays =
      ap (claim_loop turns) (refused_turn c.phase e answers c x p failed)
      ∙ disabled_stays turns _ refl h in
    (ap (λ d. d.session) stays, ap (λ d. d.sent) stays, ap (λ d. d.phase) stays)
