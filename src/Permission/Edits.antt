-- ===== src/Permission/Edits.antt =====
-- What a sequence of edits leaves in a rule store: which entry was added last.
use mentra.Base.{◌≡◌, ◌≢◌, ◌↔◌, ◌⊎◌, inl, inr, sym, ap, List, [], ◌∷◌}
use mentra.Permission.Rules.{PermissionRuleAddress, RememberedRule, Entry, RuleStore, address_of}
use mentra.Permission.Listed.{In, In-empty}
use mentra.Permission.Store.{Edit, edit, edit_all, Unique, Left, edit_iff, edit-Unique}

-- The entry is the rule's, at the rule's own scope and key.
abbrev pub IsOf : RememberedRule → Entry → Type 0
IsOf rule e = (e.0.scope ≡ rule.scope) × (e.0.key ≡ rule.key) × (e.1 ≡ rule)

-- The edit leaves the entry's address alone.
unfoldable pub Spares : Edit → Entry → Type 0
Spares (Edit.add rule) e = ¬ ((rule.scope ≡ e.0.scope) × (rule.key ≡ e.0.key))
Spares (Edit.revoke address) e = ¬ ((address.scope ≡ e.0.scope) × (address.key ≡ e.0.key))
Spares (Edit.clear scope) e = e.0.scope ≢ scope

abbrev pub SparedBy : List Edit → Entry → Type 0
SparedBy [] e = Unit
SparedBy (d ∷ es) e = Spares d e × SparedBy es e

abbrev pub AddedBy : Edit → Entry → Type 0
AddedBy (Edit.add rule) e = IsOf rule e
AddedBy (Edit.revoke address) e = ⊥
AddedBy (Edit.clear scope) e = ⊥

-- Some edit adds the entry, and no later one touches its address.
abbrev pub LastAdded : List Edit → Entry → Type 0
LastAdded [] e = ⊥
LastAdded (d ∷ es) e = (AddedBy d e × SparedBy es e) ⊎ LastAdded es e

IsOf-iff : (rule : RememberedRule) (e : Entry) → (e ≡ (address_of rule, rule)) ↔ IsOf rule e
IsOf-iff rule e = (
  (λ q. (ap (λ z. z.0.scope) q, ap (λ z. z.0.key) q, ap (λ z. z.1) q)),
  λ (s, k, r). λ i. (record { scope = s i; key = k i }, r i),
)

address_iff : (a b : PermissionRuleAddress) → (a ≡ b) ↔ ((b.scope ≡ a.scope) × (b.key ≡ a.key))
address_iff a b = (
  (λ q. (ap (λ z. z.scope) (sym q), ap (λ z. z.key) (sym q))),
  λ (s, k). λ i. record { scope = sym s i; key = sym k i },
)

edit-LastAdded :
    (d : Edit) (rules : RuleStore) (e : Entry)
    → Unique rules
    → In e (edit d rules) ↔ (AddedBy d e ⊎ (In e rules × Spares d e))
unfolding Left Spares
edit-LastAdded d rules e u =
    let (into, out) = edit_iff d rules e u in ((λ m. there d (into m)), λ why. out (back d why))
  where
    there : (d : Edit) → Left d rules e → AddedBy d e ⊎ (In e rules × Spares d e)
    there (Edit.add rule) (inl q) = inl ((IsOf-iff rule e).0 q)
    there (Edit.add rule) (inr (m, n)) = inr (m, λ s. n ((address_iff e.0 (address_of rule)).1 s))
    there (Edit.revoke address) (m, n) = inr (m, λ s. n ((address_iff e.0 address).1 s))
    there (Edit.clear scope) (m, n) = inr (m, n)

    back : (d : Edit) → AddedBy d e ⊎ (In e rules × Spares d e) → Left d rules e
    back (Edit.add rule) (inl q) = inl ((IsOf-iff rule e).1 q)
    back (Edit.add rule) (inr (m, n)) = inr (m, λ s. n ((address_iff e.0 (address_of rule)).0 s))
    back (Edit.revoke address) (inl q) = absurd q
    back (Edit.revoke address) (inr (m, n)) = (m, λ s. n ((address_iff e.0 address).0 s))
    back (Edit.clear scope) (inl q) = absurd q
    back (Edit.clear scope) (inr (m, n)) = (m, n)

edit_all-Spared :
    (es : List Edit) (rules : RuleStore) (e : Entry)
    → Unique rules
    → In e (edit_all es rules) ↔ ((In e rules × SparedBy es e) ⊎ LastAdded es e)
unfolding edit_all
edit_all-Spared [] rules e u =
    ((λ m. inl (m, tt)), λ why. elim why [ inl (m, _) ↦ m | inr n ↦ absurd n ])
edit_all-Spared (d ∷ es) rules e u =
    let (into, out) = edit_all-Spared es (edit d rules) e (edit-Unique d rules u) in
    let (from, back) = edit-LastAdded d rules e u in
    (
      (λ m. elim (into m) [
        | inl (l, spared) ↦ elim (from l) [
          | inl added ↦ inr (inl (added, spared))
          | inr (old, spares) ↦ inl (old, (spares, spared))
        ]
        | inr later ↦ inr (inr later)
      ]),
      λ why. out (elim why [
        | inl (old, (spares, spared)) ↦ inl (back (inr (old, spares)), spared)
        | inr last ↦ elim last [
          | inl (added, spared) ↦ inl (back (inl added), spared)
          | inr later ↦ inr later
        ]
      ]),
    )

-- After any sequence of edits of an empty store, exactly those entries are stored that an edit added
-- at the rule's own scope and key and that no later edit touched: none added a rule at that scope
-- and key, revoked that address or cleared that scope.
pub edit_all-LastAdded : (es : List Edit) (e : Entry) → In e (edit_all es []) ↔ LastAdded es e
edit_all-LastAdded es e =
    let (into, out) = edit_all-Spared es [] e tt in
    (
      (λ m. elim (into m) [
        | inl (none_stored, _) ↦ absurd (In-empty none_stored)
        | inr added ↦ added
      ]),
      λ added. out (inr added),
    )
