-- ===== src/Logging/Files.antt =====
-- The files of the access logs: one for each name.
use proxygo.Base.{
  ℕ, ◌<◌, ◌≡◌, ◌≢◌, refl, ◌∙◌, ap, arith, Bool, true, false, Option, none, some, List, [], ◌∷◌,
  bytes_beq_iff,
}
use proxygo.Base.Assoc.{bytes_eq, lookup, lookup-assign}
use proxygo.Logging.{Logger, cached_or_open, access_file}

-- Every file of the map was opened before, and no two names have the same.
abbrev pub IsTidy : Logger → Type 0
IsTidy l =
    ((name : List ℕ) (f : ℕ) → lookup name l.access ≡ some f → f < l.next_file)
    × ((a b : List ℕ) (f : ℕ) → lookup a l.access ≡ some f → lookup b l.access ≡ some f → a ≡ b)

-- What is open under a name stays so.
abbrev pub Keeps : Logger → Logger → Type 0
Keeps l l' =
    (name : List ℕ) (f : ℕ) → lookup name l.access ≡ some f → lookup name l'.access ≡ some f

abbrev Opens : List ℕ → Logger → Option ℕ × Logger → Type 0
Opens name l (r, l') =
    IsTidy l' × Keeps l l' × ((f : ℕ) → r ≡ some f → lookup name l'.access ≡ some f)

cached_or_open-Opens :
    (name : List ℕ) (opens : Bool) (l : Logger) (dir : List ℕ) (o : Option ℕ)
    → lookup name l.access ≡ o
    → IsTidy l
    → Opens name l (cached_or_open name opens l dir o)
cached_or_open-Opens name opens l dir (some f) found tidy =
    (tidy, λ a g h. h, λ g same. found ∙ same)
cached_or_open-Opens name opens l [] none found tidy = (tidy, λ a g h. h, λ g same. cc)
cached_or_open-Opens name false l (c ∷ dir) none found tidy = (tidy, λ a g h. h, λ g same. cc)
cached_or_open-Opens name true l (c ∷ dir) none found (older, apart) =
    let new = λ (a : List ℕ). lookup-assign name a l.next_file l.access in
    (
      (
        λ a f h. ground (arith, new a, older a f),
        λ a b f ha hb. ground (
          arith,
          new a,
          new b,
          older a f,
          older b f,
          apart a b f,
          bytes_beq_iff name a,
          bytes_beq_iff name b,
        ),
      ),
      λ a f h. ground (arith, new a, bytes_beq_iff name a, found, h),
      λ f same. ground (arith, new name, bytes_beq_iff name name),
    )

-- A run of calls of accessFile, each with a name and what OpenFile would answer.
unfoldable pub accesses : List (List ℕ × Bool) → Logger → Logger
accesses [] l = l
accesses ((name, opens) ∷ rest) l = accesses rest (access_file name opens l).1

accesses-Keeps :
    (cs : List (List ℕ × Bool)) (l : Logger)
    → IsTidy l
    → IsTidy (accesses cs l) × Keeps l (accesses cs l)
unfolding accesses access_file
accesses-Keeps [] l tidy = (tidy, λ name f h. h)
accesses-Keeps ((name, opens) ∷ cs) l tidy =
    let (tidy', kept, found) =
      cached_or_open-Opens name opens l l.access_dir (lookup name l.access) refl tidy in
    let (tidy'', kept') = accesses-Keeps cs (access_file name opens l).1 tidy' in
    (tidy'', λ a f h. kept' a f (kept a f h))

-- From a tidy logger on, a name that got a file gets the same file after any further calls, whether or
-- not OpenFile would succeed then, and no other name ever gets it.
pub access_file-stable :
    (name : List ℕ) (opens : Bool) (cs : List (List ℕ × Bool)) (l : Logger) (f : ℕ)
    → IsTidy l
    → (access_file name opens l).0 ≡ some f
    → let later = accesses cs (access_file name opens l).1 in
      ((again : Bool) → (access_file name again later).0 ≡ some f)
      × ((other : List ℕ) (again : Bool)
          → other ≢ name
          → (access_file other again later).0 ≢ some f)
unfolding access_file
access_file-stable name opens cs l f tidy opened =
    let (tidy', kept, found) =
      cached_or_open-Opens name opens l l.access_dir (lookup name l.access) refl tidy in
    let later = accesses cs (access_file name opens l).1 in
    let (tidy'', kept') = accesses-Keeps cs (access_file name opens l).1 tidy' in
    let there = kept' name f (found f opened) in
    (
      λ again. ap (λ o. (cached_or_open name again later later.access_dir o).0) there,
      λ other again differs same.
          let (tidy3, kept3, found3) =
            cached_or_open-Opens other again later later.access_dir (lookup other later.access) refl
              tidy'' in
          differs (tidy3.1 other name f (found3 f same) (kept3 name f there)),
    )
