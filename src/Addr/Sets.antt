-- ===== src/Addr/Sets.antt =====
-- `qrtr_set_address` of src/addr.c sets the address.
use qrtr.Base.{
  u32_mod, ◌<◌, ℕ, ◌≡◌, refl, sym, ap, some, ◌∙◌, not, ◌&&◌, ◌==◌, if◌then◌else◌, inl, inr, arith,
  Bool-cases,
}
use qrtr.System.{
  ran, left, failed, ◌>>=◌, or_exit, NetlinkRequest, Headers, Kernel, NetlinkResponse,
}
use qrtr.System.Laws.{
  IsNewaddr, IsKernel, >>=-ran, or_exit-ran, FailsOnly, >>=-FailsOnly, or_exit-FailsOnly,
  if-FailsOnly,
}
use qrtr.Addr.{address_request, configure, qrtr_set_address}

module _ {K : Type 0} (h : Headers) (kernel : Kernel K) (current : K → ℕ)
    (laws : IsKernel h kernel current) (addr : ℕ) (small : addr < u32_mod) where
  request-IsNewaddr : IsNewaddr h (address_request h addr) (address_request h addr).nlmsg_len addr
  request-IsNewaddr = record {
    kind = refl;
    flags = refl;
    family = refl;
    placed = refl;
    attr = refl;
    width = refl;
    whole = omega arith;
    sent = refl;
    value = refl;
  }

  configure-Sets : (k k' : K) → configure h kernel addr k ≡ ran k' → current k' ≡ addr
  unfolding configure ◌>>=◌
  configure-Sets k k' r =
      let (opened, e₁, r₁) =
        >>=-ran (or_exit (kernel.socket h.af_netlink h.sock_dgram h.netlink_route k)) _ r in
      let (asked, e₂, r₂) = >>=-ran (or_exit (kernel.send opened.0 m m.nlmsg_len opened.1)) _ r₁ in
      let (answer, e₃, r₃) = >>=-ran (or_exit (kernel.recv opened.0 asked)) _ r₂ in
      by_answer opened.0 opened.1 asked answer (or_exit-ran _ e₁) (or_exit-ran _ e₂)
        (or_exit-ran _ e₃) r₃
    where
      m : NetlinkRequest
      m = address_request h addr

      by_answer :
          (fd : ℕ) (k₀ asked : K) (answer : NetlinkResponse × K)
          → kernel.socket h.af_netlink h.sock_dgram h.netlink_route k ≡ some (fd, k₀)
          → kernel.send fd m m.nlmsg_len k₀ ≡ some asked
          → kernel.recv fd asked ≡ some answer
          → (if (answer.0.nlmsg_type == h.nlmsg_error) && not (answer.0.error == 0)
              then left failed
              else ran (kernel.close fd answer.1))
            ≡ ran k'
          → current k' ≡ addr
      by_answer fd k₀ asked (resp, last) s e e' r =
          elim (Bool-cases ((resp.nlmsg_type == h.nlmsg_error) && not (resp.error == 0))) [
            | inl b ↦ absurd (cc (rw b at r))
            | inr b ↦
                let closed : kernel.close fd last ≡ k' = cc (rw b at r) in
                let reply =
                  laws.acknowledged fd m.nlmsg_len addr m k k₀ asked last resp s request-IsNewaddr e
                    e' in
                sym (ap current closed)
                ∙ laws.close fd last
                ∙ laws.carried_out fd m.nlmsg_len addr m k k₀ asked last resp s small
                    request-IsNewaddr e e' reply (ground (arith, b, reply))
          ]

  -- Where the kernel has one node number, which QRTR sockets have in their names and which a
  -- well-formed RTM_NEWADDR request on a netlink socket sets that is acknowledged without an error, the
  -- kernel's number is the 32-bit addr once qrtr_set_address has returned, whether it was that before
  -- or not.
  pub set_address-Sets : (k k' : K) → qrtr_set_address h kernel addr k ≡ ran k' → current k' ≡ addr
  unfolding qrtr_set_address ◌>>=◌
  set_address-Sets k k' r =
      let (opened, e₁, r₁) = >>=-ran (or_exit (kernel.socket h.af_qipcrtr h.sock_dgram 0 k)) _ r in
      let (named, e₂, r₂) = >>=-ran (or_exit (kernel.getsockname opened.0 opened.1)) _ r₁ in
      let (same, kept) =
        laws.getsockname _ _ opened.0 k opened.1 named.1 named.0 (or_exit-ran _ e₁)
          (or_exit-ran _ e₂) in
      elim (Bool-cases ((named.0.sl == h.sockaddr_size) && (named.0.sq.node == addr))) [
        | inr b ↦ configure-Sets (kernel.close opened.0 named.1) k' (rw b at r₂)
        | inl b ↦
            let closed : kernel.close opened.0 named.1 ≡ k' = cc (rw b at r₂) in
            let node : named.0.sq.node ≡ addr = ground (arith, b) in
            sym (ap current closed) ∙ laws.close opened.0 named.1 ∙ kept ∙ sym same ∙ node
      ]

module _ {K : Type 0} (h : Headers) (kernel : Kernel K) (addr : ℕ) (k : K) where
  configure-FailsOnly : FailsOnly (configure h kernel addr k)
  unfolding configure
  configure-FailsOnly =
      >>=-FailsOnly (or_exit (kernel.socket h.af_netlink h.sock_dgram h.netlink_route k)) _
        (or_exit-FailsOnly _)
        (λ opened.
          >>=-FailsOnly
            (or_exit (
              kernel.send opened.0 (address_request h addr) (address_request h addr).nlmsg_len
                opened.1))
            _ (or_exit-FailsOnly _)
            (λ asked.
              >>=-FailsOnly (or_exit (kernel.recv opened.0 asked)) _ (or_exit-FailsOnly _)
                (λ answer.
                  if-FailsOnly ((answer.0.nlmsg_type == h.nlmsg_error) && not (answer.0.error == 0))
                    _ _ tt tt)))

pub set_address-FailsOnly :
    {K : Type 0} (h : Headers) (kernel : Kernel K) (addr : ℕ) (k : K)
    → FailsOnly (qrtr_set_address h kernel addr k)
unfolding qrtr_set_address
set_address-FailsOnly h kernel addr k =
    >>=-FailsOnly (or_exit (kernel.socket h.af_qipcrtr h.sock_dgram 0 k)) _ (or_exit-FailsOnly _)
      (λ opened.
        >>=-FailsOnly (or_exit (kernel.getsockname opened.0 opened.1)) _ (or_exit-FailsOnly _)
          (λ named.
            if-FailsOnly ((named.0.sl == h.sockaddr_size) && (named.0.sq.node == addr)) _ _ tt
              (configure-FailsOnly h kernel addr (kernel.close opened.0 named.1))))
