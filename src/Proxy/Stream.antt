-- ===== src/Proxy/Stream.antt =====
-- gateway/proxy.py: which attempt's answer the client of a chat completion is told.
use dmr.Prelude.{
  ℕ, zero, suc, ◌+◌, ◌≡◌, refl, sym, ap, ◌∙◌, String, Bool, false, Option, none, some, List, [],
  ◌∷◌, ◌++◌,
}
use dmr.Proxy.{
  Failure, caught, other, StreamAnswer, failed_stream, refused_stream, streamed, Wording, post,
  emit, shown, pause, emits, any_sent, Streamed, on_caught, attempt, stream_loop, stream_response,
}
use dmr.Proxy.Exchange.{
  silences, silences-none, silences-some, exchange, exchange-silent, plus_zero,
}

abbrev pub silent_break : Option Failure → List String → Option String
silent_break none cs = none
silent_break (some (other e)) cs = none
silent_break (some (caught e)) [] = some e
silent_break (some (caught e)) (c ∷ cs) = none

-- A failure after which nothing is said and the next attempt is made.
abbrev pub silent : StreamAnswer → Option String
silent (failed_stream (caught e)) = some e
silent (failed_stream (other e)) = none
silent (refused_stream code body) = none
silent (streamed cs broke) = silent_break broke cs

-- What the client is told of one attempt.
abbrev pub told : Wording → StreamAnswer → Streamed
told w (refused_stream code body) = (none, emit (w.error_event body code) ∷ [])
told w (failed_stream (caught e)) = (none, [])
told w (failed_stream (other e)) = (some e, [])
told w (streamed cs none) = (none, emits cs)
told w (streamed cs (some (other e))) = (some e, emits cs)
told w (streamed cs (some (caught e))) =
    (none, emits cs ++ emit (w.error_event (w.interrupted e) 502) ∷ [])

-- The error of the last attempt.
unheard_stream : Wording → (ℕ → StreamAnswer) → ℕ → Streamed
unheard_stream w answers k = (none, emit (w.error_event (shown (silent (answers k))) 502) ∷ [])

-- What an attempt does, by whether it is silent.
attempt-told :
    (w : Wording) (a : StreamAnswer) (left : ℕ) (again : String → Bool → Streamed)
    → silent a ≡ none
    → attempt w a false left again ≡ told w a
unfolding attempt on_caught any_sent
attempt-told w (refused_stream code body) left again h = refl
attempt-told w (failed_stream (caught e)) left again h = cc
attempt-told w (failed_stream (other e)) left again h = refl
attempt-told w (streamed cs none) left again h = refl
attempt-told w (streamed [] (some (caught e))) left again h = cc
attempt-told w (streamed (c ∷ cs) (some (caught e))) left again h = refl
attempt-told w (streamed cs (some (other e))) left again h = refl

attempt-again :
    (w : Wording) (a : StreamAnswer) (left : ℕ) (again : String → Bool → Streamed) (e : String)
    → silent a ≡ some e
    → attempt w a false left again ≡ ((again e false).0, pause left ++ (again e false).1)
unfolding attempt on_caught any_sent emits
attempt-again w (refused_stream code body) left again e h = cc
attempt-again w (failed_stream (caught d)) left again e h = let q : d ≡ e = cc in rw q refl
attempt-again w (failed_stream (other d)) left again e h = cc
attempt-again w (streamed cs none) left again e h = cc
attempt-again w (streamed [] (some (caught d))) left again e h = let q : d ≡ e = cc in rw q refl
attempt-again w (streamed (c ∷ cs) (some (caught d))) left again e h = cc
attempt-again w (streamed cs (some (other d))) left again e h = cc

-- The loop, whose variables say that nothing was sent yet.
stream_loop-exchange :
    (w : Wording) (answers : ℕ → StreamAnswer) (n left : ℕ) (last : Option String)
    (o : Option String)
    → silent (answers n) ≡ o
    → stream_loop w answers n (suc left) false last
      ≡ exchange
          (λ k. told w (answers k))
          (unheard_stream w answers (n + left))
          n
          left
          (silences silent answers n (suc left))
unfolding stream_loop unheard_stream pause
stream_loop-exchange w answers n left last none h =
    rw
      (
        silences-none silent answers n left h,
        attempt-told w (answers n) left (λ e sent. stream_loop w answers (suc n) left sent (some e))
            h,
        plus_zero n,
      )
      refl
stream_loop-exchange w answers n zero last (some e) h =
    rw
      (
        silences-some silent answers n zero e h,
        plus_zero n,
        attempt-again w (answers n) zero
            (λ e sent. stream_loop w answers (suc n) zero sent (some e)) e h,
      )
      (ap (λ o. (none, post n ∷ emit (w.error_event (shown o) 502) ∷ [])) (sym h))
stream_loop-exchange w answers n (suc left) last (some e) h =
    let again =
      λ (e : String) (sent : Bool). stream_loop w answers (suc n) (suc left) sent (some e) in
    ap (λ r. (r.0, post n ∷ r.1)) (attempt-again w (answers n) (suc left) again e h)
    ∙ exchange-silent silent answers (λ k. told w (answers k)) (unheard_stream w answers) n left e
        (again e false) h
        (stream_loop-exchange w answers (suc n) left (some e) (silent (answers (suc n))) refl)

-- The stream that the client gets is the first answer, of at most 300, that is not silent, after one POST for each attempt up to
-- that one and two seconds' sleep between them; if all are silent, it is one error event with the last failure, after 300 POSTs.
pub stream_response-exchange :
    (w : Wording) (answers : ℕ → StreamAnswer)
    → stream_response w answers
      ≡ exchange
          (λ k. told w (answers k))
          (none, emit (w.error_event (shown (silent (answers 300))) 502) ∷ [])
          1
          299
          (silences silent answers 1 300)
unfolding stream_response unheard_stream
stream_response-exchange w answers =
    stream_loop-exchange w answers 1 299 none (silent (answers 1)) refl
