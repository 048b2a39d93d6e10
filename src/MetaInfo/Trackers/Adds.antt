-- ===== src/MetaInfo/Trackers/Adds.antt =====
-- source/bt/metainfo.cpp: lists of trackers to which new ones are added.
use torfoil.Prelude.{
  List, [], ◌∷◌, ◌++◌, Bytes, ◌≡◌, ◌≢◌, ◌⊎◌, inl, inr, refl, sym, ◌∙◌, subst, Among,
}

-- No URL stands twice.
abbrev pub IsDistinct : List Bytes → Type 0
IsDistinct [] = Unit
IsDistinct (url ∷ rest) = (Among url rest → ⊥) × IsDistinct rest

Among-append :
    (url new : Bytes) (known : List Bytes)
    → Among url (known ++ new ∷ [])
    → Among url known ⊎ (url ≡ new)
Among-append url new [] (inl e) = inr e
Among-append url new [] (inr h) = absurd h
Among-append url new (k ∷ known) (inl e) = inl (inl e)
Among-append url new (k ∷ known) (inr h) = elim (Among-append url new known h) [
  | inl old ↦ inl (inr old)
  | inr e ↦ inr e
]

Among-old : (url new : Bytes) (known : List Bytes) → Among url known → Among url (known ++ new ∷ [])
Among-old url new [] h = absurd h
Among-old url new (k ∷ known) (inl e) = inl e
Among-old url new (k ∷ known) (inr h) = inr (Among-old url new known h)

Among-new : (new : Bytes) (known : List Bytes) → Among new (known ++ new ∷ [])
Among-new new [] = inl refl
Among-new new (k ∷ known) = inr (Among-new new known)

append-IsDistinct :
    (new : Bytes) (known : List Bytes)
    → (Among new known → ⊥)
    → IsDistinct known
    → IsDistinct (known ++ new ∷ [])
append-IsDistinct new [] fresh distinct = (λ h. h, tt)
append-IsDistinct new (k ∷ known) fresh distinct = (
  λ h. elim (Among-append k new known h) [ inl old ↦ distinct.0 old | inr e ↦ fresh (inl (sym e)) ],
  append-IsDistinct new known (λ h. fresh (inr h)) distinct.1,
)

-- From one list to the next: all stay different, and the URLs that are not empty and satisfy P, and no
-- others, are there besides the old ones.
pub record Adds (known : List Bytes) (next : List Bytes) (P : Bytes → Type 0) : Type 0 where
  pub distinct : IsDistinct known → IsDistinct next
  pub tells : (url : Bytes) → Among url next → Among url known ⊎ ((url ≢ []) × P url)
  pub old : (url : Bytes) → Among url known → Among url next
  pub new : (url : Bytes) → url ≢ [] → P url → Among url next

pub Adds-none :
    {P : Bytes → Type 0} (known : List Bytes)
    → ((url : Bytes) → url ≢ [] → P url → ⊥)
    → Adds known known P
Adds-none known nothing = record {
  distinct = λ h. h;
  tells = λ url h. inl h;
  old = λ url h. h;
  new = λ url ne p. absurd (nothing url ne p);
}

pub Adds-trans :
    {P Q : Bytes → Type 0} {a b c : List Bytes}
    → Adds a b P
    → Adds b c Q
    → Adds a c (λ url. P url ⊎ Q url)
Adds-trans f g = record {
  distinct = λ h. g.distinct (f.distinct h);
  tells = λ url h. elim (g.tells url h) [
    | inl middle ↦ elim (f.tells url middle) [
      | inl first ↦ inl first
      | inr (ne, p) ↦ inr (ne, inl p)
    ]
    | inr (ne, q) ↦ inr (ne, inr q)
  ];
  old = λ url h. g.old url (f.old url h);
  new = λ url ne pq. elim pq [ inl p ↦ g.old url (f.new url ne p) | inr q ↦ g.new url ne q ];
}

pub Adds-map :
    {P Q : Bytes → Type 0} {a b : List Bytes}
    → Adds a b P
    → ((url : Bytes) → P url → Q url)
    → ((url : Bytes) → Q url → P url)
    → Adds a b Q
Adds-map f to from = record {
  distinct = f.distinct;
  tells =
      λ url h. elim (f.tells url h) [ inl first ↦ inl first | inr (ne, p) ↦ inr (ne, to url p) ];
  old = f.old;
  new = λ url ne q. f.new url ne (from url q);
}

-- Appending one URL that is not empty and not known.
pub Adds-append :
    {P : Bytes → Type 0} (known : List Bytes) (url : Bytes)
    → url ≢ []
    → (Among url known → ⊥)
    → P url
    → ((other : Bytes) → P other → other ≡ url)
    → Adds known (known ++ url ∷ []) P
Adds-append {P} known url ne fresh p only = record {
  distinct = append-IsDistinct url known fresh;
  tells = λ other h. elim (Among-append other url known h) [
    | inl old ↦ inl old
    | inr e ↦ inr (λ e'. ne (sym e ∙ e'), subst P (sym e) p)
  ];
  old = λ other h. Among-old other url known h;
  new = λ other _ p.
      subst (λ u. Among u (known ++ url ∷ [])) (sym (only other p)) (Among-new url known);
}
