-- ===== src/Driver/Xsk/Sync.antt =====
-- The frames that the loop has read, those of the descriptors in hand, and those in the Rx ring.
use std.Path.{subst}
use mathlib.Core.List.{append-nil, append_assoc}
use defrizer.Common.{ℕ, ◌≡◌, refl, sym, ap, ◌∙◌, List, [], ◌∷◌, ◌++◌, map}
use defrizer.Program.Sock.{SockHelpers}
use defrizer.Program.Redirects.{Redirected}
use defrizer.Driver.Frames.Ledger.{Ledger, came, looked_at}
use defrizer.Driver.Xsk.{XskView, All, Grows, Leaves, Received}

module _ {A : Type 0} (Q : A → Type 0) where
  All-append : (xs ys : List A) → All Q xs → All Q ys → All Q (xs ++ ys)
  All-append [] ys p q = q
  All-append (x ∷ xs) ys p q = (p.0, All-append xs ys p.1 q)

  All-grown : (a x a' : List A) → a' ≡ a ++ x → All Q a → All Q x → All Q a'
  All-grown a x a' e old new = rw e (All-append a x old new)

  All-behind : (xs ys : List A) → All Q (xs ++ ys) → All Q ys
  All-behind [] ys p = p
  All-behind (x ∷ xs) ys p = All-behind xs ys p.1

map-All : {A B : Type 0} (f g : A → B) (xs : List A) → All (λ x. f x ≡ g x) xs → map f xs ≡ map g xs
map-All f g [] same = refl
map-All f g (x ∷ xs) same = cc (same.0, map-All f g xs same.1)

-- The descriptors `ds` are in hand: of all frames that were delivered, the first are read, then come
-- those of `ds`, then those that wait. All were redirected.
pub record InSync {W D : Type 0} (b : SockHelpers W) (v : XskView W D) (ds : List D) (w : W)
    (l : Ledger D) : Type 0 where
  pub order : v.delivered w ≡ l.frames ++ (map (v.umem w) ds ++ v.queue w)
  pub before : List D
  pub mine : v.owned w ≡ before ++ ds
  pub right : All (Redirected b) (v.delivered w)

-- More frames at the end of three lists.
extend :
    {X : Type 0} (a p m q x a' q' : List X)
    → a ≡ p ++ (m ++ q)
    → a' ≡ a ++ x
    → q' ≡ q ++ x
    → a' ≡ p ++ (m ++ q')
extend a p m q x a' q' e ea eq =
    ea
    ∙ (ap (λ z. z ++ x) e
        ∙ (append_assoc p (m ++ q) x
            ∙ ap (λ z. p ++ z) (append_assoc m q x ∙ ap (λ z. m ++ z) (sym eq))))

module _ {W D : Type 0} {b : SockHelpers W} {v : XskView W D} (w w' : W) where
  -- The frames in hand are the same behind a call that leaves them alone.
  unread-same :
      (ds : List D) (l : Ledger D)
      → InSync b v ds w l
      → Leaves b v w w'
      → All (λ d. v.umem w' d ≡ v.umem w d) ds
  unread-same ds l r left =
      All-behind (λ d. v.umem w' d ≡ v.umem w d) r.before ds
        (subst (All (λ d. v.umem w' d ≡ v.umem w d)) r.mine left.umem_same)

  -- A call that leaves the frames in hand alone.
  pub stay-InSync :
      (ds : List D) (l l' : Ledger D)
      → l'.frames ≡ l.frames
      → InSync b v ds w l
      → Grows b v w w'
      → Leaves b v w w'
      → InSync b v ds w' l'
  stay-InSync ds l l' same r more left =
      let kept = map-All (v.umem w') (v.umem w) ds (unread-same ds l r left) in
      record {
        order =
            rw (same, kept)
              (extend (v.delivered w) l.frames (map (v.umem w) ds) (v.queue w) more.added
                (v.delivered w') (v.queue w') r.order more.delivered_grows more.queue_grows);
        before = r.before;
        mine = left.owned_same ∙ r.mine;
        right =
            All-grown (Redirected b) (v.delivered w) more.added (v.delivered w')
              more.delivered_grows r.right more.answered;
      }

  -- A call with no frame in hand.
  pub idle-InSync :
      (l l' : Ledger D)
      → l'.frames ≡ l.frames
      → InSync b v [] w l
      → Grows b v w w'
      → InSync b v [] w' l'
  idle-InSync l l' same r more = record {
    order = rw same (
        extend (v.delivered w) l.frames [] (v.queue w) more.added (v.delivered w') (v.queue w')
          r.order more.delivered_grows more.queue_grows);
    before = v.owned w';
    mine = sym (append-nil (v.owned w'));
    right =
        All-grown (Redirected b) (v.delivered w) more.added (v.delivered w') more.delivered_grows
          r.right more.answered;
  }

  pub read-InSync :
      (d : D) (ds : List D) (f : List ℕ) (l : Ledger D)
      → f ≡ v.umem w d
      → InSync b v (d ∷ ds) w l
      → Grows b v w w'
      → Leaves b v w w'
      → InSync b v ds w' (looked_at d f l)
  read-InSync d ds f l e r more left =
      let same : v.umem w' d ≡ f = (unread-same (d ∷ ds) l r left).0 ∙ sym e in
      let stayed = stay-InSync (d ∷ ds) l l refl r more left in
      record {
        order =
            stayed.order
            ∙ (ap (λ z. l.frames ++ (z ∷ (map (v.umem w') ds ++ v.queue w'))) same
                ∙ sym (append_assoc l.frames (f ∷ []) (map (v.umem w') ds ++ v.queue w')));
        before = stayed.before ++ d ∷ [];
        mine = stayed.mine ∙ sym (append_assoc stayed.before (d ∷ []) ds);
        right = stayed.right;
      }

  pub receive-InSync :
      (ds : List D) (l : Ledger D)
      → InSync b v [] w l
      → Received b v ds w w'
      → InSync b v ds w' (came ds l)
  receive-InSync ds l r got = record {
    order =
        got.delivered_grows
        ∙ (ap (λ z. z ++ got.added) r.order
            ∙ (append_assoc l.frames (v.queue w) got.added ∙ ap (λ z. l.frames ++ z) got.taken));
    before = v.owned w;
    mine = got.owned_grows;
    right =
        All-grown (Redirected b) (v.delivered w) got.added (v.delivered w') got.delivered_grows
          r.right got.answered;
  }
