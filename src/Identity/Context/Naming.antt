-- ===== src/Identity/Context/Naming.antt =====
-- The label of a request of gateway/identity.py, however often its handlers refine it.
use mathlib.Core.Path.{subst}
use dmr.Prelude.{
  ℕ, zero, suc, ◌≤◌, ◌≡◌, refl, Option, some, List, [], ◌∷◌, Text, length, strip, arith,
}
use dmr.Identity.{take, before}
use dmr.Identity.Context.{
  Context, new_request_context, text_or_empty, note_session, composed, note_agent, set_agent,
  note_model, note_profile, set_model,
}
use dmr.Identity.Context.Label.{IsLabel, composed-IsLabel}

-- What a handler notes of a request.
pub data Note : Type 0 where
  of_agent of_model : Option Text → Option Text → Note

unfoldable pub note : Note → Option Context → Option Context
unfolding set_agent set_model
note (of_agent a s) ctx = set_agent a s ctx
note (of_model m p) ctx = set_model m p ctx

unfoldable pub note_all : List Note → Option Context → Option Context
unfolding note
note_all [] ctx = ctx
note_all (n ∷ ns) ctx = note_all ns (note n ctx)

-- The name that a note declares, or else the one before.
unfoldable pub or_named : Text → Text → Text
or_named [] before = before
or_named (c ∷ t) before = c ∷ t

unfoldable pub named_by : Note → Text → Text
unfolding or_named take strip text_or_empty
named_by (of_agent a s) before = or_named (take 48 (strip (text_or_empty a))) before
named_by (of_model m p) before = before

-- The last name that is declared, and else the one before.
unfoldable pub last_named : List Note → Text → Text
unfolding named_by
last_named [] name = name
last_named (n ∷ ns) name = last_named ns (named_by n name)

-- A context of the request, in which the name is the last declared.
pub record IsOf (rid h ip name : Text) (ctx : Context) : Type 0 where
  pub same_rid : ctx.rid ≡ rid
  pub same_harness : ctx.harness ≡ h
  pub same_ip : ctx.client_ip ≡ ip
  pub labelled : IsLabel h name ctx.agent
  pub short_session : length ctx.session ≤ 32
  pub short_model : length ctx.model ≤ 64
  pub short_profile : length ctx.profile ≤ 32

-- There is a context, and it is of the request.
abbrev pub IsKept : Text → Text → Text → Text → Option Context → Type 0
IsKept rid h ip name c = (ctx : Context) × ((c ≡ some ctx) × IsOf rid h ip name ctx)

length-take : (n : ℕ) (t : Text) → length (take n t) ≤ n
unfolding take
length-take zero t = ground arith
length-take (suc n) [] = ground arith
length-take (suc n) (c ∷ t) = ground (arith, length-take n t)

module _ (rid h ip name : Text) (ctx : Context) (o : IsOf rid h ip name ctx) where
  note_session-IsOf : (s : Text) → IsOf rid h ip name (note_session s ctx)
  unfolding note_session
  note_session-IsOf [] = o
  note_session-IsOf (c ∷ t) = record {
    same_rid = o.same_rid;
    same_harness = o.same_harness;
    same_ip = o.same_ip;
    labelled = o.labelled;
    short_session = length-take 32 (strip (c ∷ t));
    short_model = o.short_model;
    short_profile = o.short_profile;
  }

  note_agent-IsOf : (a : Text) → IsOf rid h ip (or_named a name) (note_agent a ctx)
  unfolding note_agent or_named
  note_agent-IsOf [] = o
  note_agent-IsOf (c ∷ t) = record {
    same_rid = o.same_rid;
    same_harness = o.same_harness;
    same_ip = o.same_ip;
    labelled =
        subst (λ g. IsLabel g (c ∷ t) (composed (before b'~' ctx.harness) (c ∷ t))) o.same_harness
          (composed-IsLabel ctx.harness c t);
    short_session = o.short_session;
    short_model = o.short_model;
    short_profile = o.short_profile;
  }

  note_model-IsOf : (m : Text) → IsOf rid h ip name (note_model m ctx)
  unfolding note_model
  note_model-IsOf [] = o
  note_model-IsOf (c ∷ t) = record {
    same_rid = o.same_rid;
    same_harness = o.same_harness;
    same_ip = o.same_ip;
    labelled = o.labelled;
    short_session = o.short_session;
    short_model = length-take 64 (c ∷ t);
    short_profile = o.short_profile;
  }

  note_profile-IsOf : (p : Text) → IsOf rid h ip name (note_profile p ctx)
  unfolding note_profile
  note_profile-IsOf [] = o
  note_profile-IsOf (c ∷ t) = record {
    same_rid = o.same_rid;
    same_harness = o.same_harness;
    same_ip = o.same_ip;
    labelled = o.labelled;
    short_session = o.short_session;
    short_model = o.short_model;
    short_profile = length-take 32 (c ∷ t);
  }

note-IsKept :
    (rid h ip name : Text) (ctx : Context) (n : Note)
    → IsOf rid h ip name ctx
    → IsKept rid h ip (named_by n name) (note n (some ctx))
unfolding note set_agent set_model named_by
note-IsKept rid h ip name ctx (of_agent a s) o = (
  _,
  (
    refl,
    note_agent-IsOf rid h ip name _ (note_session-IsOf rid h ip name ctx o (text_or_empty s)) _,
  ),
)
note-IsKept rid h ip name ctx (of_model m p) o = (
  _,
  (
    refl,
    note_profile-IsOf rid h ip name _ (note_model-IsOf rid h ip name ctx o (text_or_empty m)) _,
  ),
)

note_all-IsKept :
    (rid h ip name : Text) (ctx : Context) (ns : List Note)
    → IsOf rid h ip name ctx
    → IsKept rid h ip (last_named ns name) (note_all ns (some ctx))
unfolding note_all last_named
note_all-IsKept rid h ip name ctx [] o = (ctx, (refl, o))
note_all-IsKept rid h ip name ctx (n ∷ ns) o =
    let (after, (e, p)) = note-IsKept rid h ip name ctx n o in
    rw e (note_all-IsKept rid h ip (named_by n name) after ns p)

-- Whatever its handlers note of a request, its context keeps the id, the harness and the address; the session, the model and the
-- profile are at most 32, 64 and 32 characters. Its label is the harness until a name is declared. Then it is of the
-- last name declared and of what stands in the harness before the first "~": the name alone if that is empty, the
-- name itself or starts with "ip:" or "key:", and else both with a "/" between them.
pub note_all-IsOf :
    (rid h ip : Text) (ns : List Note)
    → IsKept rid h ip (last_named ns []) (note_all ns (new_request_context rid h ip))
unfolding new_request_context
note_all-IsOf rid h ip ns = note_all-IsKept rid h ip [] _ ns (record {
  same_rid = refl;
  same_harness = refl;
  same_ip = refl;
  labelled = refl;
  short_session = ground arith;
  short_model = ground arith;
  short_profile = ground arith;
})
