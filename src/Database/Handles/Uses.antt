-- ===== src/Database/Handles/Uses.antt =====
-- How each connection handle is used, whatever the threads do meanwhile.
use rt_csp.Base.{
  ℕ, ◌≡◌, refl, ap, Bool, true, false, Option, none, some, List, [], ◌∷◌, ◌++◌, ◌==◌, ==_refl,
  if◌then◌else◌, arith,
}
use rt_csp.Database.Handles.{Call, init, options, ping, close, real_connect, query}

-- A connection handle as the library's manual has it.
pub data Handle : Type 0 where
  raw ready opened closed : Handle

-- mysql_init makes a handle ready that holds no connection; options are set and connections made with a
-- ready one; queries are made over a connection; a handle is closed that is ready or connected, and
-- after that not used until it is made ready again.
abbrev pub used : Handle → Call → Option Handle
used raw (init j) = some ready
used closed (init j) = some ready
used ready (options j) = some ready
used ready (real_connect j ok) = some (if ok then opened else ready)
used ready (ping j) = some ready
used ready (close j) = some closed
used opened (query j s) = some opened
used opened (ping j) = some opened
used opened (close j) = some closed
used h c = none

-- The handle that a call is about.
abbrev pub about : Call → Option ℕ
about (init j) = some j
about (options j) = some j
about (ping j) = some j
about (close j) = some j
about (real_connect j ok) = some j
about (query j s) = some j
about c = none

abbrev is_about : ℕ → Option ℕ → Bool
is_about i none = false
is_about i (some j) = i == j

abbrev use_by : Bool → Handle → Call → Option Handle
use_by mine h c = if mine then used h c else some h

-- What the calls make of handle `i`; `none` is a use that the manual rules out.
unfoldable pub uses : ℕ → Handle → List Call → Option Handle
uses i h [] = some h
uses i h (c ∷ cs) = elim (use_by (is_about i (about c)) h c) [ none ↦ none | some g ↦ uses i g cs ]

-- The same for calls that are all about one handle.
abbrev concerns : Option ℕ → Bool
concerns none = false
concerns (some j) = true

unfoldable pub plain : Handle → List Call → Option Handle
plain h [] = some h
plain h (c ∷ cs) = elim (use_by (concerns (about c)) h c) [ none ↦ none | some g ↦ plain g cs ]

abbrev For : ℕ → Option ℕ → Type 0
For i none = Unit {0}
For i (some j) = j ≡ i

-- The calls are about handle `i` or none.
abbrev pub Only : ℕ → List Call → Type 0
Only i [] = Unit {0}
Only i (c ∷ cs) = For i (about c) × Only i cs

pub Only-append : (i : ℕ) (cs ds : List Call) → Only i cs → Only i ds → Only i (cs ++ ds)
Only-append i [] ds h g = g
Only-append i (c ∷ cs) ds h g = (h.0, Only-append i cs ds h.1 g)

mine : (i : ℕ) (o : Option ℕ) → For i o → is_about i o ≡ concerns o
mine i none h = refl
mine i (some j) h = ground (arith, h)

others : (i k : ℕ) (o : Option ℕ) → (k == i) ≡ false → For i o → is_about k o ≡ false
others i k none e h = refl
others i k (some j) e h = rw h e

pub uses-Only : (i : ℕ) (h : Handle) (cs : List Call) → Only i cs → uses i h cs ≡ plain h cs
unfolding uses plain
uses-Only i h [] o = refl
uses-Only i h (c ∷ cs) o = go (λ g. uses-Only i g cs o.1)
  where
    go :
        ((g : Handle) → uses i g cs ≡ plain g cs)
        → elim (use_by (is_about i (about c)) h c) [ none ↦ none | some g ↦ uses i g cs ]
          ≡ elim (use_by (concerns (about c)) h c) [ none ↦ none | some g ↦ plain g cs ]
    go ih = rw (mine i (about c) o.0) (after (use_by (concerns (about c)) h c))
      where
        after :
            (q : Option Handle)
            → elim q as (λ _. Option Handle) [ none ↦ none | some g ↦ uses i g cs ]
              ≡ elim q [ none ↦ none | some g ↦ plain g cs ]
        after none = refl
        after (some g) = ih g

-- Calls about another handle change nothing.
pub uses-others :
    (i k : ℕ) (h : Handle) (cs : List Call) → (k == i) ≡ false → Only i cs → uses k h cs ≡ some h
unfolding uses
uses-others i k h [] e o = refl
uses-others i k h (c ∷ cs) e o = rw (uses, others i k (about c) e o.0) (uses-others i k h cs e o.1)

pub plain-append :
    (h h' : Handle) (cs ds : List Call) → plain h cs ≡ some h' → plain h (cs ++ ds) ≡ plain h' ds
unfolding plain
plain-append h h' [] ds e = let d : h ≡ h' = cc e in ap (λ g. plain g ds) d
plain-append h h' (c ∷ cs) ds e =
    go (use_by (concerns (about c)) h c) (λ g. plain-append g h' cs ds) e
  where
    go :
        (o : Option Handle)
        → ((g : Handle) → plain g cs ≡ some h' → plain g (cs ++ ds) ≡ plain h' ds)
        → elim o as (λ _. Option Handle) [ none ↦ none | some g ↦ plain g cs ] ≡ some h'
        → elim o as (λ _. Option Handle) [ none ↦ none | some g ↦ plain g (cs ++ ds) ] ≡ plain h' ds
    go none ih e = cc
    go (some g) ih e = ih g e

-- Options are not set on a handle that was closed.
pub uses-closed_options :
    (i : ℕ) (h : Handle) (cs : List Call) → uses i h (ping i ∷ close i ∷ options i ∷ cs) ≡ none
unfolding uses
uses-closed_options i raw cs = ground (arith, ==_refl i)
uses-closed_options i ready cs = ground (arith, ==_refl i)
uses-closed_options i opened cs = ground (arith, ==_refl i)
uses-closed_options i closed cs = ground (arith, ==_refl i)
