-- ===== src/Proxy/Tests.antt =====
-- Backends that fail, refuse and answer.
use dmr.Prelude.{ℕ, ◌≡◌, ◌≤◌, refl, none, some, List, [], ◌∷◌, ◌==◌, if◌then◌else◌}
use dmr.Config.Catalog.{deepseek_v4_flash}
use dmr.Proxy.{
  Failure, caught, other, Answer, failed, refused, completed, StreamAnswer, failed_stream,
  refused_stream, streamed, Listing, unreadable, not_ok, listed, Wording, Event, post, sleep, emit,
  Reply, result, error_reply, raises, shown, chat_completion, stream_response,
}
use dmr.Proxy.Exchange.{silences, exchange}
use dmr.Proxy.Stream.{silent, told, stream_response-exchange}
use dmr.Proxy.Chat.{silent_answer, reply_to, chat_completion-exchange}
use dmr.Proxy.Retries.{posts, posts_after_emit, stream_response-posts}
use dmr.Proxy.Names.{
  Happened, asked, forgot, served_model_name, cache_after, remembered, or_own, or_else, offer,
  served_model_name-remembered,
}

abbrev wording : Wording
wording = record { error_event = λ e n. e; interrupted = λ e. e; unreachable = λ n e. e }

-- Twice no connection, then half a stream.
abbrev half : ℕ → StreamAnswer
half n =
    if n == 3
    then streamed ("a" ∷ "b" ∷ []) (some (caught "reset"))
    else failed_stream (caught "refused")

abbrev slow : ℕ → Answer ℕ
slow n = if n == 3 then completed 7 else failed (caught "refused")

stream_response-half :
    (stream_response wording half).1
    ≡ post 1 ∷ sleep 2 ∷ post 2 ∷ sleep 2 ∷ post 3 ∷ emit "a" ∷ emit "b" ∷ emit "reset" ∷ []
unfolding stream_response
stream_response-half = refl

chat_completion-slow :
    chat_completion wording deepseek_v4_flash slow
    ≡ (result 7, post 1 ∷ sleep 2 ∷ post 2 ∷ sleep 2 ∷ post 3 ∷ [])
unfolding chat_completion
chat_completion-slow = refl

stream_response-exchange_example :
    stream_response wording half
    ≡ exchange
        (λ k. told wording (half k))
        (none, emit (wording.error_event (shown (silent (half 300))) 502) ∷ [])
        1
        299
        (silences silent half 1 300)
stream_response-exchange_example = stream_response-exchange wording half

stream_response-posts_example :
    (posts (stream_response wording half).1 ≤ 300)
    × (posts_after_emit (stream_response wording half).1 ≡ 0)
stream_response-posts_example = stream_response-posts wording half

chat_completion-exchange_example :
    chat_completion wording deepseek_v4_flash slow
    ≡ exchange
        (λ k. (reply_to (slow k), []))
        (
          error_reply
              (wording.unreachable deepseek_v4_flash.container_name
                (shown (silent_answer (slow 300))))
              502,
          [],
        )
        1
        299
        (silences silent_answer slow 1 300)
chat_completion-exchange_example = chat_completion-exchange wording deepseek_v4_flash slow

-- The cluster's launcher had started it under another id.
abbrev adopted : List Happened
adopted =
    asked deepseek_v4_flash (listed ("Qwen/base" ∷ [])) ∷ asked deepseek_v4_flash unreadable ∷ []

served_model_name-remembered_example :
    (served_model_name deepseek_v4_flash not_ok (cache_after adopted)).0
    ≡ or_own deepseek_v4_flash
        (or_else (remembered adopted deepseek_v4_flash.name) (offer deepseek_v4_flash not_ok))
served_model_name-remembered_example = served_model_name-remembered adopted deepseek_v4_flash not_ok

served_model_name-adopted :
    (served_model_name deepseek_v4_flash not_ok (cache_after adopted)).0 ≡ "Qwen/base"
unfolding served_model_name dmr.Proxy.Names.put_name
served_model_name-adopted = refl
