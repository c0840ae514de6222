-- ===== src/Plugins/Consistent.antt =====
-- The map of handles of include/connect/service/service.hpp and action/action.hpp points to the
-- handles that its keys name.
use ros2_connect.Prelude.{
  ℕ, ◌<◌, ◌≤◌, length, length-erase, ◌≡◌, refl, sym, ap, ◌∙◌, Bool, true, false, Option, none, some,
  List, [], ◌∷◌, ◌++◌, ◌==◌, ==_iff, ==_self, if◌then◌else◌, lookup, erase, or_else, lookup-insert,
  lookup-erase, bytes_key, bytes_beq, bytes_beq_iff, Bool-cases, inl, inr, ◌⊎◌, arith,
}
use ros2_connect.Plugins.Handles.{
  Handle, Plugin, Effect, gid_string, modify, perform, store_handle, remove_handle, execute_remove,
  is_running, new,
}
use ros2_connect.Config.Types.{ServiceActionDefinition}

-- Every entry points to a handle that was created, with the goal id of the key.
abbrev pub IsConsistent : Plugin → Type 0
IsConsistent p =
    (k : List ℕ) (h : ℕ)
    → lookup k p.handles ≡ some h
    → (h < p.next) × (gid_string (p.objects h) ≡ k)

pub some_inj : {a b : ℕ} → some a ≡ some b → a ≡ b
some_inj e = cc

pub new-IsConsistent : (d : ServiceActionDefinition) → IsConsistent (new d)
unfolding lookup
new-IsConsistent d k h e = cc

pub modify-IsConsistent :
    (h : ℕ) (f : Handle → Handle) (p : Plugin)
    → ((o : Handle) → (f o).gid ≡ o.gid)
    → IsConsistent p
    → IsConsistent (modify h f p)
modify-IsConsistent h f p keeps c k j e =
    let (small, named) = c k j e in
    (
      small,
      elim (Bool-cases (j == h)) [
        | inl same ↦ rw (same) (ap (λ g. g ++ 0 ∷ []) (keeps (p.objects j)) ∙ named)
        | inr other ↦ rw (other) named
      ],
    )

pub perform-IsConsistent : (e : Effect) (p : Plugin) → IsConsistent p → IsConsistent (perform e p)
perform-IsConsistent e p c = c

pub remove_handle-IsConsistent :
    (h : ℕ) (p : Plugin) → IsConsistent p → IsConsistent (remove_handle h p)
remove_handle-IsConsistent h p c = c

-- The new pointer is no old one.
fresh : (h n : ℕ) → h < n → (h == n) ≡ false
fresh h n b = ground (arith, ==_iff h n)

-- The entry that an insertion leaves: the one that was there, or else the new one.
entry :
    (o : Handle) (p : Plugin) (k : List ℕ) (h : ℕ) (b : Bool) (was : Option ℕ)
    → (if b then or_else was p.next else was) ≡ some h
    → (was ≡ some h) ⊎ ((b ≡ true) × (h ≡ p.next))
entry o p k h true none e = inr (refl, sym (some_inj e))
entry o p k h true (some w) e = inl e
entry o p k h false was e = inl e

pub store_handle-IsConsistent :
    (o : Handle) (p : Plugin) → IsConsistent p → IsConsistent (store_handle o p)
store_handle-IsConsistent o p c k h e =
    elim (entry o p k h (bytes_beq (gid_string o) k) (lookup k p.handles)
      (sym (lookup-insert (gid_string o) k p.next p.handles) ∙ e)) [
        | inl old ↦
            (let (small, named) = c k h old in
              (omega (arith, small), rw (fresh h p.next small) named))
        | inr made ↦
            (let (same, at_next) = made in
              rw (at_next)
                (omega arith, rw (==_self p.next) ((bytes_beq_iff (gid_string o) k).0 same)))
      ]

pub erase-IsConsistent :
    (k : List ℕ) (p : Plugin)
    → IsConsistent p
    → IsConsistent (record p { handles = erase k p.handles })
erase-IsConsistent k p c j h e =
    c j h (kept (bytes_beq k j) (lookup j p.handles) (sym (lookup-erase k j p.handles) ∙ e))
  where
    kept : {h : ℕ} (b : Bool) (was : Option ℕ) → (if b then none else was) ≡ some h → was ≡ some h
    kept true was e = ground (arith, e)
    kept false was e = e

pub execute_remove-IsConsistent : (p : Plugin) → IsConsistent p → IsConsistent (execute_remove p)
unfolding execute_remove
execute_remove-IsConsistent p c = removed p.to_remove p.stopping
  where
    removed :
        (hs : List ℕ) (b : Bool)
        → IsConsistent (
            if b then p else elim hs [
              | [] ↦ p
              | h ∷ rest ↦ if is_running (p.objects h).thread then p else record p {
                to_remove = rest;
                handles = erase (gid_string (p.objects h)) p.handles;
              }
            ])
    removed hs true = c
    removed [] false = c
    removed (h ∷ rest) false = elim (Bool-cases (is_running (p.objects h).thread)) [
      | inl e ↦ rw (e) c
      | inr e ↦ rw (e) (erase-IsConsistent (gid_string (p.objects h)) p c)
    ]

pub length-nil : {A : Type 0} (l : List A) → length l ≤ 0 → l ≡ []
length-nil [] b = refl
length-nil (x ∷ l) b = elim b [ ]

pub erased :
    (k : List ℕ) (h : ℕ) (hs : List (List ℕ × ℕ)) → length (erase k ((k, h) ∷ hs)) ≤ length hs
unfolding erase
erased k h hs = rw ((bytes_beq_iff k k).1 refl) (length-erase k hs)
