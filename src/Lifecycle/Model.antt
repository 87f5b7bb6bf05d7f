-- ===== src/Lifecycle/Model.antt =====
-- A host that shows that the laws can hold: stores as functions, and a list that says which of the
-- next writes fail after they are persisted. Records are kept by a table instead of as JSON.
use ipfs_node.Base.Texts.{Text, text, text_eq, text_eq_iff}
use ipfs_node.Base.{
  Bool, true, false, ◌≡◌, ◌≢◌, refl, Option, none, some, List, [], ◌∷◌, if◌then◌else◌, arith,
  Bool-cases, inl, inr,
}
use ipfs_node.Lifecycle.Steps.{if-Post}
use ipfs_node.Registry.{FileRecord}
use ipfs_node.Host.{Host, Error, not_found, already_pinned, failure, Result, Done, done, ok, threw}
use ipfs_node.Host.Laws.{Post, on_ok, on_threw, HostView, HostLaws, Same, Wrote, Pinned}

pub record Toy : Type 0 where
  pub values : Text → Option FileRecord
  pub pins : Text → Bool
  pub faults : List Bool

unfoldable pub update {ℓ} : {A : Type ℓ} → Text → A → (Text → A) → Text → A
update k a f j = if text_eq j k then a else f j

update_self {ℓ} : {A : Type ℓ} (k : Text) (a : A) (f : Text → A) → update k a f k ≡ a
unfolding update
update_self k a f = ground (arith, text_eq_iff k k)

update_other {ℓ} :
    {A : Type ℓ} (k : Text) (a : A) (f : Text → A) (j : Text) → j ≢ k → update k a f j ≡ f j
unfolding update
update_other k a f j n = elim (Bool-cases (text_eq j k)) [
  | inl e ↦ absurd (n ((text_eq_iff j k).0 e))
  | inr e ↦ rw e
]

-- The next fault decides what a write answers.
unfoldable pub finish : (Text → Option FileRecord) → (Text → Bool) → List Bool → Toy × Result Done
finish values pins [] = (record { values = values; pins = pins; faults = [] }, ok done)
finish values pins (true ∷ fs) =
    (record { values = values; pins = pins; faults = fs }, threw (failure (text "fault")))
finish values pins (false ∷ fs) = (record { values = values; pins = pins; faults = fs }, ok done)

unfoldable pub toy_get : Text → Toy → Toy × Result FileRecord
toy_get k w = elim (w.values k) [ none ↦ (w, threw not_found) | some b ↦ (w, ok b) ]

unfoldable pub toy_put : Text → FileRecord → Toy → Toy × Result Done
toy_put k b w = finish (update k (some b) w.values) w.pins w.faults

unfoldable pub toy_delete : Text → Toy → Toy × Result Done
toy_delete k w = finish (update k none w.values) w.pins w.faults

unfoldable pub toy_add : Text → Toy → Toy × Result Done
toy_add k w =
    if w.pins k then (w, threw already_pinned) else finish w.values (update k true w.pins) w.faults

unfoldable pub toy_rm : Text → Toy → Toy × Result Done
toy_rm k w =
    if w.pins k then finish w.values (update k false w.pins) w.faults else (w, threw not_found)

unfoldable pub toy_pins_get : Text → Toy → Toy × Result Done
toy_pins_get k w = if w.pins k then (w, ok done) else (w, threw not_found)

abbrev pub toy : Host
toy = record {
  World = Toy;
  Bytes = FileRecord;
  datastore_get = toy_get;
  datastore_put = toy_put;
  datastore_delete = toy_delete;
  pins_add = toy_add;
  pins_rm = toy_rm;
  pins_get = toy_pins_get;
  stat = λ k w. (w, ok (record { size = 10; deduplicated_dag_size = 12 }));
  random_uuid = λ w. (w, text "uuid");
  is_aborted = λ w. false;
  encode = λ r. r;
  decode = λ r. some r;
}

abbrev pub toy_view : HostView toy
toy_view = record { value_at = λ w. w.values; pin_at = λ w. w.pins }

finish-Post :
    {Q : Done → Toy → Type 0} {E : Error → Toy → Type 0} (values : Text → Option FileRecord)
    (pins : Text → Bool) (fs : List Bool)
    → ((gs : List Bool) → Q done (record { values = values; pins = pins; faults = gs }))
    → ((gs : List Bool)
        → E (failure (text "fault")) (record { values = values; pins = pins; faults = gs }))
    → Post Q E (finish values pins fs)
unfolding finish
finish-Post values pins [] q e = on_ok (q [])
finish-Post values pins (true ∷ fs) q e = on_threw (e fs)
finish-Post values pins (false ∷ fs) q e = on_ok (q fs)

stays : (w : Toy) → Same toy toy_view w w
stays w = record { same_value = λ k. refl; same_pin = λ k. refl }

get_holds :
    (k : Text) (w : Toy)
    → Post
        (λ b after. (w.values k ≡ some b) × Same toy toy_view w after)
        (λ e after. (e ≡ not_found → w.values k ≡ none) × Same toy toy_view w after)
        (toy_get k w)
unfolding toy_get
get_holds k w = go (w.values k) refl
  where
    go :
        (o : Option FileRecord)
        → w.values k ≡ o
        → Post
            (λ b after. (w.values k ≡ some b) × Same toy toy_view w after)
            (λ e after. (e ≡ not_found → w.values k ≡ none) × Same toy toy_view w after)
            (elim o [ none ↦ (w, threw not_found) | some b ↦ (w, ok b) ])
    go none x = on_threw (λ y. x, stays w)
    go (some b) x = on_ok (x, stays w)

wrote :
    (k : Text) (o : Option FileRecord) (w : Toy) (gs : List Bool)
    → Wrote toy toy_view k w (record { values = update k o w.values; pins = w.pins; faults = gs })
wrote k o w gs = record { other_value = λ j n. update_other k o w.values j n; same_pin = λ j. refl }

repinned :
    (k : Text) (b : Bool) (w : Toy) (gs : List Bool)
    → Pinned toy toy_view k w (record { values = w.values; pins = update k b w.pins; faults = gs })
repinned k b w gs = record {
  same_value = λ j. refl;
  other_pin = λ j n. update_other k b w.pins j n;
}

unpinned_still : (k : Text) (w : Toy) → Pinned toy toy_view k w w
unpinned_still k w = record { same_value = λ j. refl; other_pin = λ j n. refl }

pub toy_laws : HostLaws toy toy_view
unfolding toy_put toy_delete toy_add toy_rm toy_pins_get
toy_laws = record {
  get_lem = get_holds;
  put_lem = λ k b w.
      finish-Post _ _ w.faults (λ gs. (update_self k (some b) w.values, wrote k (some b) w gs))
        (λ gs. (inl (update_self k (some b) w.values), wrote k (some b) w gs));
  delete_lem = λ k w.
      finish-Post _ _ w.faults (λ gs. (update_self k none w.values, wrote k none w gs))
        (λ gs.
          (λ x. update_self k none w.values, inl (update_self k none w.values), wrote k none w gs));
  add_lem = λ k w.
      if-Post (w.pins k) (λ e. on_threw ((λ x. e), (λ x. x), unpinned_still k w))
        (λ e.
          finish-Post _ _ w.faults (λ gs. (e, update_self k true w.pins, repinned k true w gs))
            (λ gs. (
              (λ x. update_self k true w.pins),
              (λ x. update_self k true w.pins),
              repinned k true w gs,
            )));
  rm_lem = λ k w.
      if-Post (w.pins k)
        (λ e.
          finish-Post _ _ w.faults (λ gs. (update_self k false w.pins, repinned k false w gs))
            (λ gs. (λ x. update_self k false w.pins, repinned k false w gs)))
        (λ e. on_threw (λ x. e, unpinned_still k w));
  pins_get_lem =
      λ k w. if-Post (w.pins k) (λ e. on_ok (e, stays w)) (λ e. on_threw (λ x. e, stays w));
  stat_lem = λ k w. on_ok (stays w);
  uuid_lem = λ w. stays w;
  decode_encode = λ r. refl;
}
