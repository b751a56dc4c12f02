-- ===== src/Ipc/Segments.antt =====
-- What one call for a segment or for the semaphores does to the names that the system holds.
use virtual_time_synchroniza.Prelude.{
  ℕ, ◌≡◌, ◌≢◌, refl, sym, ◌∙◌, Bool, true, false, none, some, done, ap, arith,
}
use virtual_time_synchroniza.Prelude.Int.{ℤ, pos, ltb_ℤ}
use virtual_time_synchroniza.Ipc.{
  SystemV, IsSystemV, Kind, segment, semaphore_set, Attached, open_segment, semaphore_create,
  semaphore_remove, remove_segment,
}

module _ {ℓ} {K : Type ℓ} (sys : SystemV K) where
  -- Nothing but one name has changed.
  abbrev pub SameBut : Kind → ℕ → K → K → Type 0
  SameBut kind key k k' =
      (kind' : Kind) (key' : ℕ)
      → ¬ ((kind' ≡ kind) × (key' ≡ key))
      → sys.lookup k' kind' key' ≡ sys.lookup k kind' key'

  pub semaphore_remove_done :
      (id : ℤ) (k : K) {k' : K}
      → sys.rmid semaphore_set id k ≡ some k'
      → semaphore_remove sys id k ≡ done k'
  unfolding semaphore_remove
  semaphore_remove_done id k e = rw (e, semaphore_remove) refl

  module _ (laws : IsSystemV sys) where
    -- The key names the object of that identifier, which the process may remove where the name was free.
    abbrev pub IsOpened : Kind → ℕ → ℤ → K → K → Type 0
    IsOpened kind key id k k' =
        (b : Bool) × (sys.lookup k' kind key ≡ some (record { identifier = id; removable = b }))
        × (sys.lookup k kind key ≡ none → b ≡ true)

    pub open_segment_lem :
        (create : Bool) (key size : ℕ) (k : K) {k' : K} {a : Attached}
        → key ≢ 0
        → open_segment sys create key size k ≡ done (k', a)
        → IsOpened segment key a.shmid k k' × SameBut segment key k k'
    unfolding open_segment
    open_segment_lem create key size k {k'} {a} named e =
        let got = sys.get segment key size create k in
        let good : ltb_ℤ got.1 (pos 0) ≡ false = ground arith in
        let at : sys.shmat got.1 got.0 ≡ some (k', a.address) = ground arith in
        let id : a.shmid ≡ got.1 = ground arith in
        let keeps = laws.shmat_keeps got.1 got.0 k' a.address in
        let (b, names, free) = laws.get_named segment key size create k named good in
        (
          (
            b,
            keeps segment key at
                ∙ names
                ∙ ap (λ i. some (record { identifier = i; removable = b })) (sym id),
            free,
          ),
          λ kind' key' ne.
              keeps kind' key' at ∙ laws.get_others segment key size create k kind' key' ne,
        )

    pub semaphore_create_lem :
        (key n : ℕ) (k : K) {k' : K} {id : ℤ}
        → key ≢ 0
        → semaphore_create sys key n k ≡ done (k', id)
        → IsOpened semaphore_set key id k k' × SameBut semaphore_set key k k'
    unfolding semaphore_create
    semaphore_create_lem key n k {k'} {id} named e =
        let got = sys.get semaphore_set key n true k in
        let good : ltb_ℤ got.1 (pos 0) ≡ false = ground arith in
        let same : got ≡ (k', id) = ground arith in
        let in_k : got.0 ≡ k' = ground arith in
        let same_id : got.1 ≡ id = ground arith in
        let (b, names, free) = laws.get_named semaphore_set key n true k named good in
        (
          (
            b,
            ap (λ j. sys.lookup j semaphore_set key) (sym in_k)
                ∙ names
                ∙ ap (λ i. some (record { identifier = i; removable = b })) same_id,
            free,
          ),
          λ kind' key' ne. cc (laws.get_others semaphore_set key n true k kind' key' ne),
        )

    pub remove_segment_lem :
        (key : ℕ) (a : Attached) (k : K)
        → sys.lookup k segment key ≡ some (record { identifier = a.shmid; removable = true })
        → (sys.lookup (remove_segment sys a k) segment key ≡ none)
          × SameBut segment key k (remove_segment sys a k)
    unfolding remove_segment
    remove_segment_lem key a k e =
        let (k', removed, gone) = laws.rmid_named segment key a.shmid k e in
        let others : SameBut segment key k k' = (λ kind' key' ne.
          laws.rmid_others segment a.shmid k k' kind' key' removed
            (λ (p, o, q, same). ne (p, laws.unique k segment key' key o _ (rw p at q) e same))) in
        rw (removed, remove_segment) (gone, others)
