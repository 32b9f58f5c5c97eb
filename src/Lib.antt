-- ===== src/Lib.antt =====
-- The verification library of the NOA ESP32 USB Power Delivery firmware (NOA_ESP32_PD/).
--
-- The program. The sketch (NOA_ESP32_PD.ino) initialises the FUSB302 port controller and the
-- protocol layer in `setup`; each pass of `loop` reads the button, which chooses the power object
-- to ask for, calls the driver's alert when the interrupt pin is low, and runs the state machine
-- once. The protocol layer (usb_pd_protocol.cpp) reaches the chip through `struct tcpm_drv`; the
-- driver (FUSB302.cpp) reads and writes registers over I2C (tcpm_driver.cpp), and calls back into
-- the protocol layer from its alert. The policy (usb_pd_policy.cpp) checks and builds requests, and
-- the board file (usb_pd_driver.cpp) holds the tables, the hooks and the clock.
--
-- Which file models which part.
--   Base: shared names, Boolean tests, lists over the native numbers, ints, and Base/Bits: masks as
--     arithmetic. A word is a natural number below 2 ^ 32, and `~` flips 32 bits.
--   Wire: tcpm_driver.cpp. A call of the Arduino library is recorded, newest first; what
--     `Wire.read` answers is a function from the number of the call, over which every theorem
--     ranges.
--   Message: usb_pd.h, the words on the line: Header (PD_HEADER), Objects (PDO, RDO, VDO), Modes
--     (words of alternate modes), Types (message types), Vdos (the
--     words of a discovery's answers). Message/Layout and Message/Answers are about their fields.
--   Volt: usb_pd_tcpm.h, the readings of a CC line.
--   Fusb302: FUSB302.h (Registers) and FUSB302.cpp: Chip (state, monad, single registers), Sense
--     (CC measurement), Control (configuration), Frame (messages), Alert (interrupts). Packets,
--     RoundTrip, Receive, Levels, Switches and PullDown are about the FIFOs, the reading of
--     messages, the readings of the CC lines, the register SWITCHES0 and the pull-downs.
--   Board, Board/Clock: usb_pd_driver.cpp.
--   Policy: usb_pd_policy.cpp: Power (what an object offers, the check of a request) and Request
--     (capabilities and requests). Policy/Bounds and Policy/Served are about what a
--     request asks for and which request is served.
--   AltMode: usb_pd_policy.cpp under CONFIG_USB_PD_ALT_MODE_DFP: State (`struct pd_policy` and the
--     board's tables, with a monad whose failure is a fault), Discovery (identity, svids, modes),
--     Modes (the table of active modes: allocate_mode, pd_dfp_enter_mode, pd_dfp_exit_mode),
--     DisplayPort (the pin assignment), Svdm (pd_svdm) and Dump (command_pe). Svids, ModeCount,
--     Pins, Replies, Entering and First are about single operations.
--   Protocol: usb_pd_protocol.cpp. Port is the state: `pd[port]`, the statics of the file and of
--     the policy, and the sketch's index, in one record over the state of any driver. Core (time,
--     flags, set_state), Transmit, Reset, Negotiate (data messages), Control (control messages,
--     handle_request), Vdm, CcLines, Sink, Source and Swap (the cases of the switch, one function
--     `run_` for each state), Run (pd_init and pd_run_state_machine). StateChange, Negotiation,
--     Counter, Silence and SinkOnly with their children hold the proofs; TwoPorts joins a sink and
--     a source, whose steps are in SourceSide and whose timers are in EntryTimer. SinkPolicy is an
--     abstract machine for the messages to a sink; SameState and SinkRefines relate handle_request
--     to it. Commands holds the setters of the application. Vconn is the swap of VCONN: State (the
--     states and the messages), Run (the three cases of the switch); Handover is about two ports.
--     OtherStates holds the BIST states and the auto toggle, Globals what a system would set. Rev30
--     is the code under CONFIG_USB_PD_REV30: Avoid (collision avoidance, pd_transmit and
--     pd_ca_send_pending), Battery (the two battery messages); Held is about a message that is kept
--     back.
--   Host: the commands of a host (usb_pd_protocol.cpp, usb_pd_policy.cpp): RwHash (the table of
--     device hashes), Hex (hex8tou32), Control (pd_control, hc_usb_pd_control), Modes (the requests
--     for alternate modes), Flash (hc_remote_flash, pd_fetch_acc_log_entry), Info (ports, device
--     and chip). Lookup, HexDigits and Locked are about the first three, Delivery and Waits about
--     Flash.
--   Console: the console command `pd` (usb_pd_protocol.cpp): Text (the comparisons of the C
--     library), State, Flashing (remote_flashing), Command (command_pd). Refused is about commands
--     that are refused, Words about the words of `pd <port> flash`.
--   Sketch: NOA_ESP32_PD.ino: fusb302_tcpm_drv, setup, loop, and the statics at power-on.
--     Sketch/SinkOnly is about its runs, Sketch/Button about the button, Sketch/Alerts about a hard
--     reset that the driver's alert finds.
--   Examples: the theorems at concrete inputs.
--
-- Conventions. Functions take and return the whole state. An argument that the source writes
-- through is an argument and a result. The clock is a pair of functions from the number of the
-- reading, one for millis() and one for micros(). `wake` is the source's static `timeout`.
--
-- Fuel. The loop of fusb302_tcpm_get_message is on fuel, one for each packet read: enough is the
-- number of packets that the FIFO holds before the chip reports it empty. The waits of Host/Flash
-- and Console/Flashing are on fuel, one for each test of the loop; Host/Waits says how much is
-- enough while time passes. The loop of FLASH_WRITE has a round for each word, which is more than
-- it takes.
--
-- Parameters. The board's tables supported_modes and svdm_rsp with their functions, and
-- get_next_bit, are not in the repository: definitions of AltMode take them as arguments. So is
-- what a read of an svid through a null pointer gives, `none` where that faults.
--
-- The same holds of the battery, of what other tasks do while a command of the host or the console
-- waits, of pd_check_vconn_swap and PD_VCONN_SWAP_DELAY, of the driver's operations that this build
-- does not call, of the bits of the answers to the host, of the size of its firmware header, and of
-- strtoi. PD_STATE_BIST_RX and PD_STATE_BIST_TX are states only of builds with
-- CONFIG_COMMON_RUNTIME; the entries into them from the console are parameters.
--
-- Not modelled. Of the code outside the configuration of usb_pd_driver.h: chunked messages,
-- billboard, the discharge of VBUS, pd_send_hpd and pd_partner_port_reset. Debug output, the hooks
-- with an empty body, and the delays of the sketch, which change no state. Code that `#if 0` takes
-- out.
pub mod Base
pub mod Wire
pub mod Message
pub mod Volt
pub mod Fusb302
pub mod Host
pub mod Console
pub mod Board
pub mod Policy
pub mod AltMode
pub mod Protocol
pub mod Sketch
pub mod Examples
