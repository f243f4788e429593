-- ===== src/Tree/Parse/RoundTrip.antt =====
-- The tokens of a tree, and the tree that is read from them.
use mathlib.Core.List.{append_assoc, append-nil}
use ndc_mock.Prelude.{
  ◌≡◌, refl, ap, ◌∙◌, true, Option, none, some, List, [], ◌∷◌, ◌++◌, String, ◌>>=◌,
}
use ndc_mock.Tree.{Attr, Node, Kids, elem, no_kids, kid, to_list, of_list, qname}
use ndc_mock.Tree.Parse.{
  RawToken, begins, ends, chars, Open, Reading, close, shut, opened, read_token, read_tokens,
  root_of, parse_tree,
}

-- The tokens of a document without white space between its elements; `raw` is how the decoder
-- takes a name apart.
module _ (raw : String → String × String) where
  mutual
    pub tokens : Node → List RawToken
    tokens (elem s al ks t) =
        begins (raw s).0 (raw s).1 al ∷ chars t ∷ (tokens_of ks ++ (ends (raw s).0 (raw s).1 ∷ []))

    pub tokens_of : Kids → List RawToken
    tokens_of no_kids = []
    tokens_of (kid k ks) = tokens k ++ tokens_of ks

of_list-to_list : (ks : Kids) → of_list (to_list ks) ≡ ks
of_list-to_list no_kids = refl
of_list-to_list (kid k ks) = ap (kid k) (of_list-to_list ks)

module _ (raw : String → String × String)
    (whole_name : (s : String) → qname (raw s).0 (raw s).1 ≡ s) where
  -- An element with the given children is closed.
  close-elem :
      (s : String) (al : List Attr) (ks : Kids) (t : String)
      → close (record { name = qname (raw s).0 (raw s).1; attrs = al; kids = to_list ks; text = t })
        ≡ elem s al ks t
  unfolding close
  close-elem s al ks t = rw (whole_name s, of_list-to_list ks)

  mutual
    unfolding tokens read_tokens read_token opened shut

    read_tokens-node :
        (n : Node) (o : Open) (st : List Open) (root : Option Node) (rest : List RawToken)
        → read_tokens (record { stack = o ∷ st; root = root }) (tokens raw n ++ rest)
          ≡ read_tokens
              (record { stack = record o { kids = o.kids ++ (n ∷ []) } ∷ st; root = root })
              rest
    read_tokens-node (elem s al ks t) o st root rest =
        rw (append_assoc (tokens_of raw ks) (ends (raw s).0 (raw s).1 ∷ []) rest) (
          read_tokens-kids ks
            (record { name = qname (raw s).0 (raw s).1; attrs = al; kids = []; text = t }) (o ∷ st)
            root (ends (raw s).0 (raw s).1 ∷ rest)
          ∙ ap
              (λ (n : Node).
                read_tokens
                  (record { stack = record o { kids = o.kids ++ (n ∷ []) } ∷ st; root = root })
                  rest)
              (close-elem s al ks t))

    read_tokens-kids :
        (ks : Kids) (o : Open) (st : List Open) (root : Option Node) (rest : List RawToken)
        → read_tokens (record { stack = o ∷ st; root = root }) (tokens_of raw ks ++ rest)
          ≡ read_tokens
              (record { stack = record o { kids = o.kids ++ to_list ks } ∷ st; root = root })
              rest
    read_tokens-kids no_kids o st root rest = rw append-nil
    read_tokens-kids (kid k ks) o st root rest =
        rw (append_assoc (tokens raw k) (tokens_of raw ks) rest) (
          read_tokens-node k o st root (tokens_of raw ks ++ rest)
          ∙ read_tokens-kids ks (record o { kids = o.kids ++ (k ∷ []) }) st root rest
          ∙ rw (append_assoc o.kids (k ∷ []) (to_list ks)))

  -- From the tokens of a tree, in the order of its document and without white space between the
  -- elements, `parseTree` builds the tree again, whatever the texts and attributes are.
  pub parse_tree-tokens : (n : Node) → parse_tree (tokens raw n) true ≡ some n
  unfolding tokens parse_tree read_tokens read_token opened shut root_of
  parse_tree-tokens (elem s al ks t) =
      ap (λ (r : Option Reading). r >>= λ r. root_of r.stack r.root)
        (read_tokens-kids ks
            (record { name = qname (raw s).0 (raw s).1; attrs = al; kids = []; text = t }) [] none
            (ends (raw s).0 (raw s).1 ∷ [])
          ∙ refl)
      ∙ ap (λ (n : Node). some n) (close-elem s al ks t)
