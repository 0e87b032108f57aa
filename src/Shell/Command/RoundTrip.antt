-- ===== src/Shell/Command/RoundTrip.antt =====
-- A command as the help text writes it reaches the client with its parts.
use mathlib.Core.List.{append_assoc}
use aevum.Prelude.{
  ℕ, suc, ◌≡◌, refl, ap, sym, ◌∙◌, true, false, [], ◌∷◌, ◌++◌, none, some, Str, pos, lit, codes,
  length, take, drop, is_empty, str_eq, starts_with, ==_iff, arith,
}
use aevum.Util.Strings.{is_space, cut, trim, drop_leading, drop_trailing}
use aevum.Util.Strings.Split.{is_token}
use aevum.Client.{AevumClient}
use aevum.Client
use aevum.Shell.{find_matching_brace}
use aevum.Shell.Braces.{Balanced, find_matching_brace-Balanced}
use aevum.Shell.Command.{
  Reader, but_last, ends_with, cut_command, find_query, from_brace, objects, update_object,
  update_objects, show_response, run_operation, process_command,
}

-- db.<collection>.<operation>(<arguments>)
abbrev pub command : Str → Str → Str → Str
command collection operation args =
    lit "db." ++ (collection ++ (b'.' ∷ (operation ++ (b'(' ∷ (args ++ (b')' ∷ []))))))

-- {<inner>}, with what stands behind it
abbrev pub object_then : Str → Str → Str
object_then inner rest = b'{' ∷ (inner ++ (b'}' ∷ rest))

abbrev pub object : Str → Str
object inner = object_then inner []

cut-append : (d : ℕ) (s t : Str) → is_token d s ≡ true → cut d (s ++ (d ∷ t)) ≡ some (s, t)
unfolding cut
cut-append d [] t h = ground (arith, ==_iff d d)
cut-append d (c ∷ s) t h = ground (arith, h, cut-append d s t)

ends_with-append : (b : ℕ) (s : Str) → ends_with b (s ++ (b ∷ [])) ≡ true
unfolding ends_with
ends_with-append b [] = ground (arith, ==_iff b b)
ends_with-append b (c ∷ []) = ends_with-append b []
ends_with-append b (c ∷ d ∷ s) = ends_with-append b (d ∷ s)

but_last-append : (b : ℕ) (s : Str) → but_last (s ++ (b ∷ [])) ≡ s
unfolding but_last
but_last-append b [] = refl
but_last-append b (c ∷ []) = refl
but_last-append b (c ∷ d ∷ s) = ap (λ r. c ∷ r) (but_last-append b (d ∷ s))

-- A text with a parenthesis is no prefix where there is none before a byte that it does not hold.
no_prefix :
    (p s t : Str)
    → is_token b'.' p ≡ true
    → is_token b'(' p ≡ false
    → is_token b'(' s ≡ true
    → starts_with p (s ++ (b'.' ∷ t)) ≡ false
unfolding starts_with
no_prefix [] s t dots parens h = absurd cc
no_prefix (x ∷ p) [] t dots parens h = ground (arith, dots)
no_prefix (x ∷ p) (c ∷ s) t dots parens h =
    ground (arith, dots, parens, h, no_prefix p s t, ==_iff x c)

pub cut_command-command :
    (collection operation args : Str)
    → is_token b'.' collection ≡ true
    → is_empty collection ≡ false
    → is_token b'(' operation ≡ true
    → cut_command (command collection operation args)
      ≡ some (record { collection = collection; operation = operation; args_str = trim args })
unfolding cut_command starts_with lit
cut_command-command collection operation args dots named parens =
    rw
      (
        cut-append b'.' collection (operation ++ (b'(' ∷ (args ++ (b')' ∷ [])))) dots,
        cut_command,
        cut-append b'(' operation (args ++ (b')' ∷ [])) parens,
        cut_command,
        named,
        ends_with-append b')' args,
        but_last-append b')' args,
      )
      refl

find_object :
    (inner rest : Str)
    → Balanced b'{' b'}' inner
    → find_matching_brace (object_then inner rest) 0 b'{' b'}' ≡ some (suc (length inner))
find_object inner rest h =
    find_matching_brace-Balanced b'{' b'}' [] inner rest (omega arith) h
    ∙ ap (λ i. some i) (omega arith)

take_object :
    (inner rest : Str) → take (suc (length inner)) (inner ++ (b'}' ∷ rest)) ≡ inner ++ (b'}' ∷ [])
take_object [] rest = refl
take_object (c ∷ s) rest = ap (λ r. c ∷ r) (take_object s rest)

drop_object : (inner rest : Str) → drop (suc (length inner)) (inner ++ (b'}' ∷ rest)) ≡ rest
drop_object [] rest = refl
drop_object (c ∷ s) rest = drop_object s rest

find_query-object :
    (inner rest : Str)
    → Balanced b'{' b'}' inner
    → find_query (object_then inner rest) ≡ object inner
unfolding find_query
find_query-object inner rest h =
    rw (find_object inner rest h, find_query) (ap (λ r. b'{' ∷ r) (take_object inner rest))

find_query-unclosed : (s : Str) → find_matching_brace s 0 b'{' b'}' ≡ none → find_query s ≡ lit "{}"
unfolding find_query
find_query-unclosed [] h = refl
find_query-unclosed (c ∷ s) h = rw (h, find_query) (ground arith)

update_object-object :
    (query change rest : Str)
    → Balanced b'{' b'}' change
    → update_object query (some (object_then change rest)) ≡ objects query (object change)
unfolding update_object
update_object-object query change rest k =
    rw (find_object change rest k, update_object)
      (ap (λ r. objects query (b'{' ∷ r)) (take_object change rest))

update_objects-objects :
    (query change rest : Str)
    → Balanced b'{' b'}' query
    → Balanced b'{' b'}' change
    → update_objects (object_then query (codes ", " ++ object_then change rest))
      ≡ objects (object query) (object change)
unfolding update_objects from_brace
update_objects-objects query change rest h k =
    rw
      (
        find_object query (codes ", " ++ object_then change rest) h,
        update_objects,
        take_object query (codes ", " ++ object_then change rest),
        drop_object query (codes ", " ++ object_then change rest),
      )
      (update_object-object (object query) change rest k)

drop_trailing-brace : (s : Str) → drop_trailing (s ++ (b'}' ∷ [])) ≡ s ++ (b'}' ∷ [])
unfolding drop_trailing is_space
drop_trailing-brace [] = refl
drop_trailing-brace (c ∷ []) = refl
drop_trailing-brace (c ∷ d ∷ s) = rw (drop_trailing-brace (d ∷ s), drop_trailing) refl

trim-braces : (s : Str) → trim (object s) ≡ object s
unfolding trim drop_leading drop_trailing is_space
trim-braces s = rw (drop_trailing-brace s, drop_trailing) (ground arith)

trim-objects :
    (query change : Str)
    → trim (object_then query (codes ", " ++ object change))
      ≡ object_then query (codes ", " ++ object change)
trim-objects query change =
    let inner = query ++ (b'}' ∷ (codes ", {" ++ change)) in
    let same : object_then query (codes ", " ++ object change) ≡ object inner =
      ap (λ t. b'{' ∷ t) (sym (append_assoc query (b'}' ∷ (codes ", {" ++ change)) (b'}' ∷ []))) in
    ap trim same ∙ (trim-braces inner ∙ sym same)

module _ (r : Reader) where
  -- A data command on a named collection, whose name holds neither a dot nor a parenthesis.
  pub process_command-command :
      (client : AevumClient) (collection operation args : Str)
      → is_token b'.' collection ≡ true
      → is_token b'(' collection ≡ true
      → is_empty collection ≡ false
      → is_token b'(' operation ≡ true
      → process_command r (command collection operation args) client
        ≡ run_operation r client
            (record { collection = collection; operation = operation; args_str = trim args })
  unfolding process_command str_eq lit starts_with
  process_command-command client collection operation args dots clear named parens =
      rw
        (
          no_prefix (codes "create_user(") collection (operation ++ (b'(' ∷ (args ++ (b')' ∷ []))))
              refl refl clear,
          cut_command-command collection operation args dots named parens,
        )
        refl

  -- A command `db.<collection>.update({<query>}, {<change>})` sends the client's update request for
  -- the two objects as they were typed, and prints what is printed of its answer, where the braces in
  -- both objects are balanced and the collection has a name without a dot or a parenthesis.
  pub process_command-update :
      (client : AevumClient) (collection query change : Str)
      → is_token b'.' collection ≡ true
      → is_token b'(' collection ≡ true
      → is_empty collection ≡ false
      → Balanced b'{' b'}' query
      → Balanced b'{' b'}' change
      → process_command r
          (command collection (codes "update") (object_then query (codes ", " ++ object change)))
          client
        ≡ show_response r
            (codes "update")
            (Client.update client collection (object query) (object change))
  unfolding run_operation str_eq lit
  process_command-update client collection query change dots clear named h k =
      process_command-command client collection (codes "update")
        (object_then query (codes ", " ++ object change)) dots clear named refl
      ∙ rw (trim-objects query change, update_objects-objects query change [] h k) refl

  -- A command `db.<collection>.find({<query>})` sends the client's find request for the object as it
  -- was typed, with no sort, limit or skip, and prints what is printed of its answer, where the
  -- braces in the object are balanced and the collection has a name without a dot or a parenthesis.
  pub process_command-find :
      (client : AevumClient) (collection query : Str)
      → is_token b'.' collection ≡ true
      → is_token b'(' collection ≡ true
      → is_empty collection ≡ false
      → Balanced b'{' b'}' query
      → process_command r (command collection (codes "find") (object query)) client
        ≡ show_response r
            (codes "find")
            (Client.find client collection (object query) (lit "{}") (pos 0) (pos 0))
  unfolding run_operation str_eq lit
  process_command-find client collection query dots clear named h =
      process_command-command client collection (codes "find") (object query) dots clear named refl
      ∙ rw (trim-braces query, find_query-object query [] h) refl

  -- Of the command for a query whose first brace is never closed the shell makes the query for all
  -- documents, where the collection has a name without a dot or a parenthesis.
  pub process_command-find_unclosed :
      (client : AevumClient) (collection query : Str)
      → is_token b'.' collection ≡ true
      → is_token b'(' collection ≡ true
      → is_empty collection ≡ false
      → find_matching_brace (trim query) 0 b'{' b'}' ≡ none
      → process_command r (command collection (codes "find") query) client
        ≡ show_response r
            (codes "find")
            (Client.find client collection (lit "{}") (lit "{}") (pos 0) (pos 0))
  unfolding run_operation str_eq show_response lit
  process_command-find_unclosed client collection query dots clear named h =
      process_command-command client collection (codes "find") query dots clear named refl
      ∙ rw (find_query-unclosed (trim query) h) refl
