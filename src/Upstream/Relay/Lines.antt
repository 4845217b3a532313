-- ===== src/Upstream/Relay/Lines.antt =====
-- What copySSE writes of a body.
use daigate.Prelude.{
  Text, ℕ, ◌+◌, List, [], ◌∷◌, ◌++◌, append_assoc, append-nil, Bool, true, false, none, some, ◌≡◌,
  refl, sym, ap, ◌∙◌, arith, Bool-cases, inl, inr, subst,
}
use daigate.Upstream.Relay.{
  Client, Sent, CopyError, cancelled, write_failed, sent_last, put_front, split_lines, copy_lines,
  copy_sse,
}

unfoldable pub joined : List Text → Text
joined [] = []
joined (t ∷ ts) = t ++ joined ts

joined-put_front :
    (c : ℕ) (x : List Text × Text)
    → joined (put_front c x).0 ++ (put_front c x).1 ≡ c ∷ (joined x.0 ++ x.1)
unfolding put_front joined
joined-put_front c ([], rest) = ground arith
joined-put_front c (line ∷ more, rest) = ground arith

joined-split_lines : (s : Text) → joined (split_lines s).0 ++ (split_lines s).1 ≡ s
unfolding split_lines joined
joined-split_lines [] = refl
joined-split_lines (c ∷ s) =
    joined-put_front c (split_lines s) ∙ ap (λ t. c ∷ t) (joined-split_lines s)

module _ (client : Client) (fails : Bool) where
  -- What is written of a text: its beginning, and all of it where the copy ends without an error.
  pub record IsCopied (text : Text) (s : Sent) : Type 0 where
    pub rest : Text
    pub begins : joined s.written ++ rest ≡ text
    pub whole : s.error ≡ none → rest ≡ []
    pub succeeds :
        ((i : ℕ) → client.gone i ≡ false)
        → ((i : ℕ) → client.accepts i ≡ true)
        → fails ≡ false
        → s.error ≡ none

  -- A copy that ends in an error before it writes.
  stopped-IsCopied :
      (text : Text) (e : CopyError)
      → (((i : ℕ) → client.gone i ≡ false)
          → ((i : ℕ) → client.accepts i ≡ true)
          → fails ≡ false
          → some e ≡ none)
      → IsCopied text (record { written = []; error = some e })
  unfolding joined
  stopped-IsCopied text e h = record { rest = text; begins = refl; whole = λ k. cc; succeeds = h }

  sent_last-IsCopied :
      (i : ℕ) (rest : Text) → IsCopied rest (sent_last rest (client.accepts i) fails)
  unfolding joined
  sent_last-IsCopied i [] = record {
    rest = [];
    begins = refl;
    whole = λ k. refl;
    succeeds = λ g a f. rw f refl;
  }
  sent_last-IsCopied i (c ∷ s) = elim (Bool-cases (client.accepts i)) [
    | inl taken ↦ rw taken (record {
      rest = [];
      begins = append-nil (joined ((c ∷ s) ∷ [])) ∙ append-nil (c ∷ s);
      whole = λ k. refl;
      succeeds = λ g a f. rw f refl;
    })
    | inr refused ↦
        rw refused (stopped-IsCopied (c ∷ s) write_failed (λ g a f. absurd (cc (a i, refused))))
  ]

  copy_lines-IsCopied :
      (i : ℕ) (lines : List Text) (rest : Text)
      → IsCopied (joined lines ++ rest) (copy_lines client fails i lines rest)
  unfolding copy_lines joined
  copy_lines-IsCopied i [] rest = elim (Bool-cases (client.gone i)) [
    | inl gone ↦
        rw (copy_lines, gone) (stopped-IsCopied rest cancelled (λ g a f. absurd (cc (g i, gone))))
    | inr there ↦ rw (copy_lines, there) (sent_last-IsCopied i rest)
  ]
  copy_lines-IsCopied i (line ∷ lines) rest =
      let text = joined (line ∷ lines) ++ rest in
      elim (Bool-cases (client.gone i)) [
        | inl gone ↦
            rw (copy_lines, gone)
              (stopped-IsCopied text cancelled (λ g a f. absurd (cc (g i, gone))))
        | inr there ↦ elim (Bool-cases (client.accepts i)) [
          | inr refused ↦
              rw (copy_lines, there, refused)
                (stopped-IsCopied text write_failed (λ g a f. absurd (cc (a i, refused))))
          | inl taken ↦
              let ih = copy_lines-IsCopied (i + 1) lines rest in
              let made : IsCopied text (record (copy_lines client fails (i + 1) lines rest) {
                written = line ∷ (copy_lines client fails (i + 1) lines rest).written;
              }) =
                record {
                  rest = ih.rest;
                  begins =
                      append_assoc line
                        (joined (copy_lines client fails (i + 1) lines rest).written) ih.rest
                      ∙ ap (λ t. line ++ t) ih.begins
                      ∙ sym (append_assoc line (joined lines) rest);
                  whole = ih.whole;
                  succeeds = ih.succeeds;
                } in
              rw (copy_lines, there, taken) made
        ]
      ]

  -- copySSE writes the bytes of the body in their order, a beginning of it in any case, and all of
  -- it unless it reports an error; it reports none while the client is there and takes what is
  -- written, if the body can be read to its end.
  pub copy_sse-IsCopied : (body : Text) → IsCopied body (copy_sse client fails body)
  unfolding copy_sse
  copy_sse-IsCopied body =
      subst (λ t. IsCopied t (copy_sse client fails body)) (joined-split_lines body)
        (copy_lines-IsCopied 0 (split_lines body).0 (split_lines body).1)
