-- ===== src/Inodes/Slots.antt =====
-- The slots of the inode cache that are in use, and `inode_get`.
use advance_synchronization.Base.{
  ℕ, ◌+◌, ◌<◌, ◌≡◌, ◌≢◌, refl, sym, ap, ◌∙◌, arith, update, eq→==, ne→==, none, some, true, false,
  ◌⊎◌, inl, inr,
}
use mathlib.Core.Path.{subst}
use native.Mathlib.Decide.{ℕ_discrete}
use advance_synchronization.Flock.{flock_init}
use advance_synchronization.Inodes.{Inode}
use advance_synchronization.Inodes.Cache.{
  ninode, Slots, Found, cached, empty_slot, full, is_cached, find_slot, inode_get,
}
use advance_synchronization.Inodes.Finding.{IsFound, find_slot-IsFound}

-- No two slots in use are for the same inode.
pub record IsUnique (slots : Slots) : Type 0 where
  pub unique :
      (i j : ℕ)
      → i < ninode
      → j < ninode
      → (slots i).ref ≢ 0
      → (slots j).ref ≢ 0
      → (slots i).dev ≡ (slots j).dev
      → (slots i).inum ≡ (slots j).inum
      → i ≡ j

-- The slot of an inode, with a reference to it.
pub record IsSlotOf (slots : Slots) (dev inum j : ℕ) : Type 0 where
  pub within : j < ninode
  pub in_use : (slots j).ref ≢ 0
  pub same_dev : (slots j).dev ≡ dev
  pub same_inum : (slots j).inum ≡ inum

cached-IsSlotOf :
    (slots : Slots) (dev inum j : ℕ)
    → j < ninode
    → is_cached (slots j) dev inum ≡ true
    → IsSlotOf slots dev inum j
cached-IsSlotOf slots dev inum j k t = record {
  within = k;
  in_use = ground arith;
  same_dev = ground arith;
  same_inum = ground arith;
}

not_cached :
    (slots : Slots) (dev inum : ℕ) (j : ℕ)
    → is_cached (slots j) dev inum ≡ false
    → ¬ IsSlotOf slots dev inum j
not_cached slots dev inum j t s = ground (arith, s.in_use, s.same_dev, s.same_inum)

abbrev again : Inode → Inode
again ip = record ip { ref = ip.ref + 1 }

abbrev fresh : Inode → ℕ → ℕ → Inode
fresh ip dev inum = record ip {
  dev = dev;
  inum = inum;
  ref = 1;
  busy = false;
  valid = false;
  flock = flock_init ip.flock;
}

-- The slots after `inode_get` returned slot `j`.
pub record IsGot (slots : Slots) (dev inum : ℕ) (slots' : Slots) (j : ℕ) : Type 0 where
  pub unique : IsUnique slots'
  pub slot : IsSlotOf slots' dev inum j
  pub others : (i : ℕ) → j ≢ i → slots' i ≡ slots i
  pub how :
      (IsSlotOf slots dev inum j × (slots' j ≡ again (slots j)))
      ⊎ (((i : ℕ) → i < ninode → ¬ IsSlotOf slots dev inum i)
          × ((slots j).ref ≡ 0)
          × (slots' j ≡ fresh (slots j) dev inum))

module _ (slots : Slots) (dev inum : ℕ) (u : IsUnique slots) where
  update-IsUnique :
      (j : ℕ) (x : Inode)
      → ((m : ℕ)
          → m < ninode
          → j ≢ m
          → (slots m).ref ≢ 0
          → (slots m).dev ≡ x.dev
          → (slots m).inum ≢ x.inum)
      → IsUnique (update slots j x)
  update-IsUnique j x apart = record {
    unique = λ i m a b p q r w. elim (ℕ_discrete j i) [
      | yes e ↦ elim (ℕ_discrete j m) [
        | yes f ↦ omega arith
        | no f ↦
            let at : update slots j x i ≡ x = rw (eq→== j i e) refl in
            let other : update slots j x m ≡ slots m = rw (ne→== j m f) refl in
            absurd (
              apart m b f (subst (λ y. y.ref ≢ 0) other q)
                (ap (λ y. y.dev) (sym other) ∙ sym r ∙ ap (λ y. y.dev) at)
                (ap (λ y. y.inum) (sym other) ∙ sym w ∙ ap (λ y. y.inum) at))
      ]
      | no e ↦ elim (ℕ_discrete j m) [
        | yes f ↦
            let at : update slots j x m ≡ x = rw (eq→== j m f) refl in
            let other : update slots j x i ≡ slots i = rw (ne→== j i e) refl in
            absurd (
              apart i a e (subst (λ y. y.ref ≢ 0) other p)
                (ap (λ y. y.dev) (sym other) ∙ r ∙ ap (λ y. y.dev) at)
                (ap (λ y. y.inum) (sym other) ∙ w ∙ ap (λ y. y.inum) at))
        | no f ↦
            let one : update slots j x i ≡ slots i = rw (ne→== j i e) refl in
            let two : update slots j x m ≡ slots m = rw (ne→== j m f) refl in
            u.unique i m a b (subst (λ y. y.ref ≢ 0) one p) (subst (λ y. y.ref ≢ 0) two q)
              (ap (λ y. y.dev) (sym one) ∙ r ∙ ap (λ y. y.dev) two)
              (ap (λ y. y.inum) (sym one) ∙ w ∙ ap (λ y. y.inum) two)
      ]
    ];
  }

  again-IsGot :
      (j : ℕ)
      → j < ninode
      → is_cached (slots j) dev inum ≡ true
      → IsGot slots dev inum (update slots j (again (slots j))) j
  again-IsGot j k t =
      let s = cached-IsSlotOf slots dev inum j k t in
      let here : update slots j (again (slots j)) j ≡ again (slots j) = rw (eq→== j j refl) refl in
      record {
        unique =
            update-IsUnique j (again (slots j))
              (λ m a n p q r. n (u.unique j m k a s.in_use p (sym q) (sym r)));
        slot = record {
          within = k;
          in_use = rw here (λ e. absurd (omega arith));
          same_dev = rw here s.same_dev;
          same_inum = rw here s.same_inum;
        };
        others = λ i n. rw (ne→== j i n) refl;
        how = inl (s, here);
      }

  fresh-IsGot :
      (j : ℕ)
      → j < ninode
      → (slots j).ref ≡ 0
      → ((i : ℕ) → i < ninode → ¬ IsSlotOf slots dev inum i)
      → IsGot slots dev inum (update slots j (fresh (slots j) dev inum)) j
  fresh-IsGot j k z missing =
      let here : update slots j (fresh (slots j) dev inum) j ≡ fresh (slots j) dev inum =
        rw (eq→== j j refl) refl in
      record {
        unique = update-IsUnique j (fresh (slots j) dev inum) (λ m a n p q r.
            missing m a (record { within = a; in_use = p; same_dev = q; same_inum = r }));
        slot = record {
          within = k;
          in_use = rw here (λ e. absurd (omega arith));
          same_dev = rw here refl;
          same_inum = rw here refl;
        };
        others = λ i n. rw (ne→== j i n) refl;
        how = inr (missing, z, here);
      }

  got :
      (r : Found)
      → find_slot ninode 0 slots dev inum none ≡ r
      → IsFound slots dev inum 0 ninode none r
      → ((inode_get slots dev inum ≡ none)
          × ((i : ℕ) → i < ninode → ((slots i).ref ≢ 0) × (¬ IsSlotOf slots dev inum i)))
        ⊎ ((slots' : Slots) × (j : ℕ) × (inode_get slots dev inum ≡ some (slots', j))
            × IsGot slots dev inum slots' j)
  unfolding inode_get
  got (cached j) e (a, b, c) =
      inr
        (update slots j (again (slots j)), j, rw (inode_get, e) refl, again-IsGot j (omega arith) c)
  got (empty_slot j) e (a, b) = elim b [
    | inl q ↦ cc
    | inr (_, x, y, z) ↦ inr (
      update slots j (fresh (slots j) dev inum),
      j,
      rw (inode_get, e) refl,
      fresh-IsGot j (omega arith) z
          (λ i k. not_cached slots dev inum i (a i (omega arith) (omega arith))),
    )
  ]
  got full e (a, b, c) = inl (
    rw (inode_get, e) refl,
    λ i k. (
      c i (omega arith) (omega arith),
      not_cached slots dev inum i (a i (omega arith) (omega arith)),
    ),
  )

  -- With at most one slot in use for an inode, inode_get panics only if all slots are in use and none is for the
  -- inode; otherwise it gives a slot of the inode, changes no other, and leaves at most one slot in use for an
  -- inode: the slot that the inode has, with a reference more, or else a free slot with one reference, no
  -- content and no lock.
  pub inode_get_lem :
      ((inode_get slots dev inum ≡ none)
        × ((i : ℕ) → i < ninode → ((slots i).ref ≢ 0) × (¬ IsSlotOf slots dev inum i)))
      ⊎ ((slots' : Slots) × (j : ℕ) × (inode_get slots dev inum ≡ some (slots', j))
          × IsGot slots dev inum slots' j)
  inode_get_lem =
      got (find_slot ninode 0 slots dev inum none) refl
        (find_slot-IsFound slots dev inum ninode 0 none)
