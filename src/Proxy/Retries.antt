-- ===== src/Proxy/Retries.antt =====
-- gateway/proxy.py, _stream_response: how often a stream is requested.
use dmr.Prelude.{
  ℕ, zero, suc, ◌+◌, ◌≡◌, refl, ◌∙◌, String, Option, none, some, List, [], ◌∷◌, ◌++◌, arith, ◌≤◌,
  ◌<◌,
}
use dmr.Proxy.{
  caught, other, StreamAnswer, failed_stream, refused_stream, streamed, Wording, Event, post, sleep,
  emit, emits, stream_response, shown,
}
use dmr.Proxy.Exchange.{silences, tried, tried_all, exchange}
use dmr.Proxy.Stream.{silent, told, stream_response-exchange}

abbrev pub posts : List Event → ℕ
posts [] = 0
posts (post n ∷ es) = suc (posts es)
posts (_ ∷ es) = posts es

-- The requests that are made once something was handed on.
abbrev pub posts_after_emit : List Event → ℕ
posts_after_emit [] = 0
posts_after_emit (emit c ∷ es) = posts es
posts_after_emit (_ ∷ es) = posts_after_emit es

posts-emits : (cs : List String) (es : List Event) → posts (emits cs ++ es) ≡ posts es
unfolding emits
posts-emits [] es = refl
posts-emits (c ∷ cs) es = posts-emits cs es

posts-emits_only : (cs : List String) → posts (emits cs) ≡ 0
unfolding emits
posts-emits_only [] = refl
posts-emits_only (c ∷ cs) = posts-emits_only cs

posts-told : (w : Wording) (a : StreamAnswer) → posts (told w a).1 ≡ 0
unfolding emits
posts-told w (refused_stream code body) = refl
posts-told w (failed_stream (caught e)) = refl
posts-told w (failed_stream (other e)) = refl
posts-told w (streamed cs none) = posts-emits_only cs
posts-told w (streamed cs (some (other e))) = posts-emits_only cs
posts-told w (streamed cs (some (caught e))) =
    posts-emits cs (emit (w.error_event (w.interrupted e) 502) ∷ [])

posts-tried : (n d : ℕ) (es : List Event) → posts (tried n d ++ es) ≡ d + posts es
posts-tried n zero es = omega arith
posts-tried n (suc d) es = omega (arith, posts-tried (suc n) d es)

posts-tried_all : (n d : ℕ) (es : List Event) → posts (tried_all n d ++ es) ≡ suc d + posts es
posts-tried_all n zero es = omega arith
posts-tried_all n (suc d) es = omega (arith, posts-tried_all (suc n) d es)

after-tried : (n d : ℕ) (es : List Event) → posts_after_emit (tried n d ++ es) ≡ posts_after_emit es
after-tried n zero es = refl
after-tried n (suc d) es = after-tried (suc n) d es

after-tried_all :
    (n d : ℕ) (es : List Event) → posts_after_emit (tried_all n d ++ es) ≡ posts_after_emit es
after-tried_all n zero es = refl
after-tried_all n (suc d) es = after-tried_all (suc n) d es

after_posts : (es : List Event) → posts es ≡ 0 → posts_after_emit es ≡ 0
after_posts [] h = refl
after_posts (post n ∷ es) h = cc
after_posts (sleep n ∷ es) h = after_posts es h
after_posts (emit c ∷ es) h = h

silences-lt :
    {A : Type 0} (f : A → Option String) (answers : ℕ → A) (n left d : ℕ)
    → silences f answers n left ≡ some d
    → d < left
silences-lt f answers n zero d h = cc
silences-lt f answers n (suc left) d h =
    by_answer (f (answers n)) (silences f answers (suc n) left) (silences-lt f answers (suc n) left)
      h
  where
    by_answer :
        (o : Option String) (r : Option ℕ)
        → ((d : ℕ) → r ≡ some d → d < left)
        → ◌≡◌ {A = Option ℕ}
            (elim o [ none ↦ some 0 | some e ↦ elim r [ none ↦ none | some d ↦ some (suc d) ] ])
            (some d)
        → d < suc left
    by_answer none r k h = let e : ◌≡◌ {A = ℕ} 0 d = cc in omega (arith, e)
    by_answer (some e) none k h = cc
    by_answer (some e) (some i) k h = let e : suc i ≡ d = cc in omega (arith, e, k i refl)

-- The stream is requested at most 300 times, and never again once a chunk or an error was handed on.
pub stream_response-posts :
    (w : Wording) (answers : ℕ → StreamAnswer)
    → (posts (stream_response w answers).1 ≤ 300)
      × (posts_after_emit (stream_response w answers).1 ≡ 0)
stream_response-posts w answers =
    rw (stream_response-exchange w answers)
      (by_silences (silences silent answers 1 300) (silences-lt silent answers 1 300))
  where
    by_silences :
        (o : Option ℕ)
        → ((d : ℕ) → o ≡ some d → d < 300)
        → (let r =
              exchange
                (λ k. told w (answers k))
                (none, emit (w.error_event (shown (silent (answers 300))) 502) ∷ [])
                1
                299
                o in
            (posts r.1 ≤ 300) × (posts_after_emit r.1 ≡ 0))
    by_silences (some d) k =
        let lt : d < 300 = k d refl in
        let es = post (1 + d) ∷ (told w (answers (1 + d))).1 in
        (
          omega (arith, posts-tried 1 d es, posts-told w (answers (1 + d))),
          after-tried 1 d es
              ∙ after_posts (told w (answers (1 + d))).1 (posts-told w (answers (1 + d))),
        )
    by_silences none k =
        let es = emit (w.error_event (shown (silent (answers 300))) 502) ∷ [] in
        (omega (arith, posts-tried_all 1 299 es), after-tried_all 1 299 es)
