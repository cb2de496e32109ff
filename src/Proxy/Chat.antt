-- ===== src/Proxy/Chat.antt =====
-- gateway/proxy.py, chat_completion: which attempt's answer the caller gets.
use dmr.Prelude.{
  ℕ, zero, suc, ◌+◌, ◌≡◌, refl, sym, ap, ◌∙◌, String, Option, none, some, List, [], ◌∷◌, ◌++◌,
}
use dmr.Config.{ModelDefinition}
use dmr.Proxy.{
  caught, other, Answer, failed, refused, completed, Wording, Event, post, Reply, result,
  error_reply, raises, shown, pause, chat_loop, chat_completion,
}
use dmr.Proxy.Exchange.{
  silences, silences-none, silences-some, exchange, exchange-silent, plus_zero,
}

abbrev pub silent_answer : {J : Type 0} → Answer J → Option String
silent_answer (failed (caught e)) = some e
silent_answer (failed (other e)) = none
silent_answer (refused code body) = none
silent_answer (completed j) = none

abbrev pub reply_to : {J : Type 0} → Answer J → Reply J
reply_to (completed j) = result j
reply_to (refused code body) = error_reply body code
reply_to (failed (caught e)) = raises e
reply_to (failed (other e)) = raises e

module _ {J : Type 0} (w : Wording) (name : String) (answers : ℕ → Answer J) where
  heard : ℕ → Reply J × List Event
  heard k = (reply_to (answers k), [])

  unheard : ℕ → Reply J × List Event
  unheard k = (error_reply (w.unreachable name (shown (silent_answer (answers k)))) 502, [])

  chat_loop-none :
      (n left : ℕ) (last : Option String) (a : Answer J)
      → answers n ≡ a
      → silent_answer a ≡ none
      → chat_loop w name answers n (suc left) last ≡ (reply_to a, post n ∷ [])
  unfolding chat_loop
  chat_loop-none n left last (failed (caught e)) q h = cc
  chat_loop-none n left last (failed (other e)) q h = rw (q, chat_loop) refl
  chat_loop-none n left last (refused code body) q h = rw (q, chat_loop) refl
  chat_loop-none n left last (completed j) q h = rw (q, chat_loop) refl

  chat_loop-some :
      (n left : ℕ) (last : Option String) (e : String) (a : Answer J)
      → answers n ≡ a
      → silent_answer a ≡ some e
      → chat_loop w name answers n (suc left) last ≡ (
          let rest = chat_loop w name answers (suc n) left (some e) in
          (rest.0, post n ∷ (pause left ++ rest.1)))
  unfolding chat_loop
  chat_loop-some n left last e (failed (caught d)) q h =
      let p : d ≡ e = cc in rw (q, p, chat_loop) refl
  chat_loop-some n left last e (failed (other d)) q h = cc
  chat_loop-some n left last e (refused code body) q h = cc
  chat_loop-some n left last e (completed j) q h = cc

  chat_loop-exchange :
      (n left : ℕ) (last : Option String) (o : Option String)
      → silent_answer (answers n) ≡ o
      → chat_loop w name answers n (suc left) last
        ≡ exchange heard (unheard (n + left)) n left (silences silent_answer answers n (suc left))
  unfolding heard unheard pause chat_loop
  chat_loop-exchange n left last none h =
      rw
        (
          chat_loop-none n left last (answers n) refl h,
          silences-none silent_answer answers n left h,
          plus_zero n,
        )
        refl
  chat_loop-exchange n zero last (some e) h =
      rw
        (
          chat_loop-some n zero last e (answers n) refl h,
          silences-some silent_answer answers n zero e h,
          plus_zero n,
        )
        (ap (λ o. (error_reply (w.unreachable name (shown o)) 502, post n ∷ [])) (sym h))
  chat_loop-exchange n (suc left) last (some e) h =
      chat_loop-some n (suc left) last e (answers n) refl h
      ∙ exchange-silent silent_answer answers heard unheard n left e
          (chat_loop w name answers (suc n) (suc left) (some e)) h
          (chat_loop-exchange (suc n) left (some e) (silent_answer (answers (suc n))) refl)

-- chat_completion answers what the first of at most 300 attempts says that does not fail by a caught error, after one POST for each
-- attempt up to that one and two seconds' sleep between them; if all fail so, it is a 502 reply with the last error, after 300 POSTs.
pub chat_completion-exchange :
    {J : Type 0} (w : Wording) (m : ModelDefinition) (answers : ℕ → Answer J)
    → chat_completion w m answers
      ≡ exchange
          (λ k. (reply_to (answers k), []))
          (
            error_reply (w.unreachable m.container_name (shown (silent_answer (answers 300)))) 502,
            [],
          )
          1
          299
          (silences silent_answer answers 1 300)
unfolding chat_completion heard unheard
chat_completion-exchange w m answers =
    chat_loop-exchange w m.container_name answers 1 299 none (silent_answer (answers 1)) refl
