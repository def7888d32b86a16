-- ===== src/Cache/Ttl/Reaper.antt =====
-- `Start`, `Stop` and the goroutine `reap` of cache/memcachettl/memCacheTTL.go. A channel that `Start`
-- makes has a number of its own. `Start` runs under `reaperMu`, and so does the first part of `Stop`,
-- which closes its channel and waits without the lock, so that other calls come between.
use mathlib.Core.Path.{subst}
use arcella_lib.Prelude.{
  if_intro, ◌∙◌, ◌||◌, ◌==◌, ◌≡◌, ◌∷◌, ◌++◌, ◌+◌, ◌<◌, ◌≤◌, Bool-cases, arith, [], List, some, none,
  Option, false, true, Bool, ap, inl, inr, refl, if◌then◌else◌, ℕ,
}

-- `reapers` are the channels of the goroutines that run, the newest first, and `wg` counts them;
-- `taken` are the channels that calls of Stop have taken and have yet to close.
pub record Lifecycle : Type 0 where
  pub done : Option ℕ
  pub stopped : Bool
  pub taken : List ℕ
  pub reapers : List ℕ
  pub fresh : ℕ

abbrev pub idle : Lifecycle
idle = record { done = none; stopped = false; taken = []; reapers = []; fresh = 0 }

-- `Start` where the channel is the given one
abbrev pub started : Lifecycle → Option ℕ → Lifecycle
started l (some d) = l
started l none = record l {
  done = some l.fresh;
  stopped = false;
  reapers = l.fresh ∷ l.reapers;
  fresh = l.fresh + 1;
}

unfoldable pub start : Lifecycle → Lifecycle
start l = started l l.done

abbrev pub channels : Option ℕ → List ℕ
channels none = []
channels (some d) = d ∷ []

-- `Stop` under the lock
unfoldable pub stop_begin : Lifecycle → Lifecycle
stop_begin l =
    if l.stopped
    then l
    else record l { stopped = true; done = none; taken = channels l.done ++ l.taken }

unfoldable pub without : ℕ → List ℕ → List ℕ
without d [] = []
without d (r ∷ rs) = let rest = without d rs in if r == d then rest else r ∷ rest

-- `close(done)`, which ends the goroutine that waits on the channel
unfoldable pub close : ℕ → Lifecycle → Lifecycle
unfolding without
close d l = record l { taken = without d l.taken; reapers = without d l.reapers }

-- `wg.Wait()` returns
abbrev pub Returns : Lifecycle → Type 0
Returns l = l.reapers ≡ []

abbrev pub has : ℕ → List ℕ → Bool
has d [] = false
has d (r ∷ rs) = r == d || has d rs

-- `Start`, and the two parts of `Stop`
pub data Step : Lifecycle → Lifecycle → Type 0 where
  starts : (l : Lifecycle) → Step l (start l)
  stops : (l : Lifecycle) → Step l (stop_begin l)
  closes : (l : Lifecycle) (d : ℕ) → has d l.taken ≡ true → Step l (close d l)

pub data Reach : Lifecycle → Type 0 where
  here : Reach idle
  next : {l m : Lifecycle} → Reach l → Step l m → Reach m

-- the channels decrease from below `n` on
abbrev Below : ℕ → List ℕ → Type 0
Below n [] = Unit {0}
Below n (r ∷ rs) = (r < n) × Below r rs

record IsSound (l : Lifecycle) : Type 0 where
  running : l.reapers ≡ channels l.done ++ l.taken
  ordered : Below l.fresh l.reapers
  no_done : l.stopped ≡ true → l.done ≡ none

Below-mono : (n m : ℕ) (rs : List ℕ) → n ≤ m → Below n rs → Below m rs
Below-mono n m [] le h = tt
Below-mono n m (r ∷ rs) le (lt, h) = (omega arith, h)

has-lt : (n d : ℕ) (rs : List ℕ) → Below n rs → has d rs ≡ true → d < n
has-lt n d [] h e = absurd (ground arith)
has-lt n d (r ∷ rs) (lt, h) e = elim (Bool-cases (r == d)) [
  | inl same ↦ ground arith
  | inr other ↦ omega (arith, lt, has-lt r d rs h (ground arith))
]

Below-without : (n d : ℕ) (rs : List ℕ) → Below n rs → Below n (without d rs)
unfolding without
Below-without n d [] h = tt
Below-without n d (r ∷ rs) (lt, h) = elim (Bool-cases (r == d)) [
  | inl same ↦ rw same (Below-mono r n (without d rs) (omega arith) (Below-without r d rs h))
  | inr other ↦ rw other (lt, Below-without r d rs h)
]

-- what lies below a channel does not have it
without-Below : (n d : ℕ) (rs : List ℕ) → n ≤ d → Below n rs → without d rs ≡ rs
unfolding without
without-Below n d [] le h = refl
without-Below n d (r ∷ rs) le (lt, h) =
    let other : r == d ≡ false = ground arith in
    rw other (ap (◌∷◌ r) (without-Below r d rs (omega arith) h))

started-IsSound : (l : Lifecycle) (o : Option ℕ) → l.done ≡ o → IsSound l → IsSound (started l o)
started-IsSound l (some d) e h = h
started-IsSound l none e h = record {
  running = ap (◌∷◌ l.fresh) (h.running ∙ ap (λ (o : Option ℕ). channels o ++ l.taken) e);
  ordered = (omega arith, h.ordered);
  no_done = λ same. absurd (ground arith);
}

start-IsSound : (l : Lifecycle) → IsSound l → IsSound (start l)
unfolding start
start-IsSound l h = started-IsSound l l.done refl h

-- the state behind the lock of a Stop that is not the second in a row
stopping-IsSound :
    (l : Lifecycle) (o : Option ℕ)
    → l.reapers ≡ channels o ++ l.taken
    → Below l.fresh l.reapers
    → IsSound (record l { stopped = true; done = none; taken = channels o ++ l.taken })
stopping-IsSound l o e h = record { running = e; ordered = h; no_done = λ _. refl }

stop_begin-IsSound :
    (l : Lifecycle) → IsSound l → IsSound (stop_begin l) × ((stop_begin l).done ≡ none)
unfolding stop_begin
stop_begin-IsSound l h =
    if_intro (λ (m : Lifecycle). IsSound m × (m.done ≡ none)) l.stopped
      (λ again. (h, h.no_done again))
      (λ first. (stopping-IsSound l l.done h.running h.ordered, refl))

close_lem :
    (o : Option ℕ) (d : ℕ) (taken : List ℕ) (n : ℕ)
    → Below n (channels o ++ taken)
    → has d taken ≡ true
    → without d (channels o ++ taken) ≡ channels o ++ without d taken
unfolding without
close_lem none d taken n h e = refl
close_lem (some c) d taken n (lt, h) e =
    let other : c == d ≡ false = ground (arith, has-lt c d taken h e) in rw other refl

close-IsSound : (l : Lifecycle) (d : ℕ) → has d l.taken ≡ true → IsSound l → IsSound (close d l)
unfolding close
close-IsSound l d e h = record {
  running =
      ap (without d) h.running
      ∙ close_lem l.done d l.taken l.fresh (subst (Below l.fresh) h.running h.ordered) e;
  ordered = Below-without l.fresh d l.reapers h.ordered;
  no_done = h.no_done;
}

Step-IsSound : {l m : Lifecycle} → Step l m → IsSound l → IsSound m
Step-IsSound (starts l) h = start-IsSound l h
Step-IsSound (stops l) h = (stop_begin-IsSound l h).0
Step-IsSound (closes l d e) h = close-IsSound l d e h

Reach-IsSound : {l : Lifecycle} → Reach l → IsSound l
Reach-IsSound here = record { running = refl; ordered = tt; no_done = λ e. refl }
Reach-IsSound (next r s) = Step-IsSound s (Reach-IsSound r)

-- the channels are closed one after the other
unfoldable pub close_all : List ℕ → Lifecycle → Lifecycle
unfolding close
close_all [] l = l
close_all (d ∷ ds) l = close_all ds (close d l)

close_all-Returns :
    (ds : List ℕ) (n : ℕ) (l : Lifecycle) → l.reapers ≡ ds → Below n ds → Returns (close_all ds l)
unfolding close_all close
close_all-Returns [] n l e h = e
close_all-Returns (d ∷ ds) n l e (lt, h) =
    let gone : without d (d ∷ ds) ≡ without d ds = without_same d ds in
    close_all-Returns ds d (close d l)
      (ap (without d) e ∙ gone ∙ without-Below d d ds (omega arith) h) h
  where
    without_same : (d : ℕ) (ds : List ℕ) → without d (d ∷ ds) ≡ without d ds
    without_same d ds = unfold without in ground arith

-- In every order of Start, of the locked parts of Stop and of the closing of its channels, the
-- goroutines that run are the one that listens to the current channel, if there is one, and those whose
-- channels a Stop has taken and not yet closed. If a Stop then takes the lock and all these channels are
-- closed with no Start in between, no goroutine is left, and every `wg.Wait()` returns.
pub reapers_running :
    (l : Lifecycle)
    → Reach l
    → (l.reapers ≡ channels l.done ++ l.taken)
      × Returns (close_all (stop_begin l).taken (stop_begin l))
reapers_running l r =
    let h = Reach-IsSound r in
    let (s, over) = stop_begin-IsSound l h in
    let m = stop_begin l in
    let e : m.reapers ≡ m.taken = s.running ∙ ap (λ (o : Option ℕ). channels o ++ m.taken) over in
    (h.running, close_all-Returns m.taken m.fresh m e (subst (Below m.fresh) e s.ordered))
